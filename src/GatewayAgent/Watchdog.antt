-- ===== src/GatewayAgent/Watchdog.antt =====
-- `watchdog_once` and `daemon_loop` of agent/gateway_agent.py.
use proxy_gateway_console_pu.Prelude.{
  leb, false, not, ◌-◌, [], zero, ◌∷◌, true, ◌&&◌, List, Bool, if◌then◌else◌, suc, String, ℕ,
}
use proxy_gateway_console_pu.Json.{
  nat, dict, dict_or_empty, get_or, get, str, bool, eq_str, truthy, merge, fields, Fields, Json,
}
use proxy_gateway_console_pu.SessionStore.{
  pure, read_session, ensure, write_event, Action, ◌>>=◌, ◌>>◌,
}
use proxy_gateway_console_pu.Outcome.{ok}
use proxy_gateway_console_pu.UsbIdentity.{is_bad_usb}
use proxy_gateway_console_pu.UnlockServer.{look_at_usb}
use proxy_gateway_console_pu.GatewayAgent.Status.{profile_source_status, on_new_store}
use proxy_gateway_console_pu.RuntimeLauncher.Launch.{runtime_status, stop_runtime}
use proxy_gateway_console_pu.GatewayAgent.Session.{stop_session}
use proxy_gateway_console_pu.Host.{Host}

module _ (h : Host) where
  -- The session is stopped, and the watchdog's event is written.
  unfoldable pub stop_because : String → String → String → List (String × Json) → Action Fields
  stop_because state summary reason extra = do
    stopped ← stop_session h
    write_event h.dirs
        (fields (("event", str "watchdog") ∷ ("state", str state) ∷ ("reason", str reason) ∷ []))
    pure (merge stopped (fields (("state", str state) ∷ ("summary", str summary) ∷ extra)))

  unfoldable pub clean_stale : Json → Action Fields
  clean_stale runtime_state = do
    stopped_runtime ← stop_runtime h
    write_event h.dirs (
        fields (
          ("event", str "watchdog")
          ∷ ("state", str "stale_runtime_cleaned")
          ∷ ("reason", str "runtime-stale")
          ∷ []))
    pure (
        fields (
          ("ok", get_or "ok" (bool false) (dict_or_empty stopped_runtime))
          ∷ ("state", str "stale_runtime_cleaned")
          ∷ ("summary", str "stale v2 child state cleaned; session manifest preserved")
          ∷ ("runtimeState", runtime_state)
          ∷ ("runtimeStop", stopped_runtime)
          ∷ []))

  unfoldable pub watch_ok : Fields → Fields → Json → Fields
  watch_ok usb profile_source runtime_state = fields (
      ("ok", bool true)
      ∷ ("state", str "watch_ok")
      ∷ ("summary", str "no watchdog action required")
      ∷ ("usb", dict usb)
      ∷ ("profileSource", dict profile_source)
      ∷ ("runtimeState", runtime_state)
      ∷ [])

  abbrev pub state_is : String → Json → Bool
  state_is state report = eq_str state (get "state" (dict_or_empty report))

  -- What the watchdog does, by what it has read.
  unfoldable pub watch_act : Json → Fields → Json → Fields → Action Fields
  watch_act session usb runtime_state profile_source =
      if truthy session && is_bad_usb usb
      then stop_because "locked_removed" "USB removal or trust failure detected; v2 session locked"
          "usb" (("usb", dict usb) ∷ [])
      else if state_is "stale" runtime_state
      then clean_stale runtime_state
      else if truthy session
          && state_is "running" runtime_state
          && not (truthy (get "present" profile_source))
      then stop_because "profile_source_lost_locked"
          "v2 local profile source disappeared; session locked and child services stopped"
          "profile-source-lost" (("profileSource", dict profile_source) ∷ [])
      else pure (watch_ok usb profile_source runtime_state)

  unfoldable pub watch_steps : String → String → Action Fields
  watch_steps usb_root profile_path = do
    ensure h.dirs
    usb ← look_at_usb h usb_root
    session ← read_session h.dirs
    runtime_state ← runtime_status h
    profile_source ← (λ s. (ok (profile_source_status h s.world profile_path usb_root), s))
    watch_act session usb runtime_state profile_source

  unfoldable pub watchdog_once : String → String → Action Fields
  watchdog_once usb_root profile_path = on_new_store h (watch_steps usb_root profile_path)

  unfoldable pub daemon_turn : String → String → Action Fields
  daemon_turn usb_root profile_path = do
    last ← watchdog_once usb_root profile_path
    write_event h.dirs (
        fields
          (("event", str "daemon-watch") ∷ ("state", get_or "state" (str "unknown") last) ∷ []))
    pure last

  -- The loop with `iterations` set: the turns that are left after the first.
  unfoldable pub daemon_turns : ℕ → String → String → Action Fields
  daemon_turns zero usb_root profile_path = daemon_turn usb_root profile_path
  daemon_turns (suc n) usb_root profile_path = do
    daemon_turn usb_root profile_path
    daemon_turns n usb_root profile_path

  -- `interval` is the text of the option. One turn is made even for no iterations.
  unfoldable pub daemon_steps : String → String → Json → ℕ → Action Fields
  daemon_steps usb_root profile_path interval iterations = do
    write_event h.dirs (
        fields
          (("event", str "daemon-start") ∷ ("usbRoot", str usb_root) ∷ ("interval", interval) ∷ []))
    last ← daemon_turns (iterations - 1) usb_root profile_path
    pure (
        fields (
          ("ok", bool true)
          ∷ ("state", str "daemon_checked")
          ∷ ("iterations", nat (if leb iterations 1 then 1 else iterations))
          ∷ ("last", dict last)
          ∷ []))

  unfoldable pub daemon_loop : String → String → Json → ℕ → Action Fields
  daemon_loop usb_root profile_path interval iterations =
      on_new_store h (daemon_steps usb_root profile_path interval iterations)
