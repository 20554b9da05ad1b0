-- ===== src/RuntimeLauncher/PhoneSetup.antt =====
-- `phone_setup_from_session` of agent/runtime_launcher.py.
use proxy_gateway_console_pu.RuntimeLauncher.Plan.{dict_of, as_int, get_dict, valid_listener}
use proxy_gateway_console_pu.Json.{arr, get, truthy, bool, nat, obj, int, str, Json}
use proxy_gateway_console_pu.Prelude.{
  [], false, true, ◌||◌, none, ◌∷◌, pos, ◌==◌, not, show_ℤ, lower, some, if◌then◌else◌, ◌<>◌, ℤ,
  Bool, String, Option,
}
use proxy_gateway_console_pu.Outcome.{ok, ◌>>=◌, Outcome}
use proxy_gateway_console_pu.Host.{Host}

-- An answer without a proxy: the state, the setting where there is one, and the summary.
unfoldable pub setup_off : String → String → Json
setup_off state summary = obj (
    ("setupVersion", nat 2)
    ∷ ("enabled", bool false)
    ∷ ("state", str state)
    ∷ ("observedClients", arr [])
    ∷ ("summary", str summary)
    ∷ [])

unfoldable pub setup_blocked : String → String → String → Json
setup_blocked state setting summary = obj (
    ("setupVersion", nat 2)
    ∷ ("enabled", bool false)
    ∷ ("state", str state)
    ∷ ("setting", str setting)
    ∷ ("authentication", bool false)
    ∷ ("observedClients", arr [])
    ∷ ("summary", str summary)
    ∷ [])

-- _pac_content
pac_content : String → String → String
pac_content host port =
    "function FindProxyForURL(url, host) {\n"
    <> "  if (isPlainHostName(host) || dnsDomainIs(host, \".local\")) { return \"DIRECT\"; }\n"
    <> "  if (shExpMatch(host, \"10.*\") || shExpMatch(host, \"192.168.*\") || shExpMatch(host, \"172.16.*\") || shExpMatch(host, \"172.17.*\") || shExpMatch(host, \"172.18.*\") || shExpMatch(host, \"172.19.*\") || shExpMatch(host, \"172.2?.*\") || shExpMatch(host, \"172.30.*\") || shExpMatch(host, \"172.31.*\")) { return \"DIRECT\"; }\n"
    <> "  return \"PROXY " <> host <> ":" <> port <> "; DIRECT\";\n" <> "}\n"

setup_on : String → Json → String → Json
unfolding pac_content
setup_on host port port_text = obj (
    ("setupVersion", nat 2)
    ∷ ("enabled", bool true)
    ∷ ("state", str "lan_listener_on")
    ∷ ("setting", str (host <> ":" <> port_text))
    ∷ ("authentication", bool false)
    ∷ (
      "manualProxy",
      obj (("server", str host) ∷ ("port", port) ∷ ("authentication", bool false) ∷ []),
    )
    ∷ (
      "pac",
      obj (
          ("available", bool true)
          ∷ ("filename", str "proxy-gateway-v2.pac")
          ∷ ("mimeType", str "application/x-ns-proxy-autoconfig")
          ∷ ("content", str (pac_content host port_text))
          ∷ []),
    )
    ∷ (
      "routePolicy",
      obj (
          ("summary", str "CN/private direct, foreign proxy is enforced by the LAN proxy runtime")
          ∷ ("split", str "cn-private-direct-foreign-proxy")
          ∷ []),
    )
    ∷ ("observedClients", arr [])
    ∷ ("summary", str "Use this session-specific LAN proxy setting for the test client only")
    ∷ [])

-- f"{port}" of a valid port
abbrev port_str : Json → String
port_str (int z) = show_ℤ z
port_str (bool b) = "True"
port_str v = ""

abbrev text_of : Json → String
text_of (str s) = s
text_of v = ""

abbrev int_of : Option ℤ → ℤ
int_of (some z) = z
int_of none = pos 0

module _ (h : Host) where
  -- _is_loopback_host
  is_loopback_host : String → Bool
  is_loopback_host host = lower host == "localhost" || h.is_loopback_ip host

  -- The answer for a listener that is valid, on its host and port.
  setup_valid : String → Json → Json
  unfolding is_loopback_host setup_blocked setup_on
  setup_valid host port =
      let setting = host <> ":" <> port_str port in
      if is_loopback_host host
      then setup_blocked "lan_listener_local_only" setting
          "LAN listener is bound to loopback and cannot be used by a phone; keep using v1 iPhone LAN proxy if needed"
      else if h.is_unspecified_ip host
      then setup_blocked "lan_listener_unspecified" setting
          "LAN listener must publish a concrete LAN address before phone setup is available"
      else if not (h.is_listening host (int_of (as_int port)))
      then setup_blocked "lan_listener_stale" setting
          "LAN listener is recorded in the session but is not currently listening; keep using v1 iPhone LAN proxy if needed"
      else setup_on host port (port_str port)

  setup_listener : Json → Outcome Json
  unfolding valid_listener setup_off setup_valid
  setup_listener listener =
      if not (truthy listener)
      then ok (
          setup_off "lan_listener_off"
            "LAN listener is off; keep using v1 iPhone LAN proxy if needed")
      else do
        fs ← dict_of listener
        ok (
            if valid_listener fs
            then setup_valid (text_of (get "host" fs)) (get "port" fs)
            else setup_off "lan_listener_invalid"
                "LAN listener settings are invalid; keep using v1 iPhone LAN proxy if needed")

  unfoldable pub phone_setup_from_session : Json → Outcome Json
  unfolding setup_listener
  phone_setup_from_session session = do
    listeners ← get_dict "listeners" session
    listeners ← dict_of listeners
    setup_listener (get "lanProxy" listeners)
