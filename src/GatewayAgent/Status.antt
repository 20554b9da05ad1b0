-- ===== src/GatewayAgent/Status.antt =====
-- `profile_source_status` and `build_status` of agent/gateway_agent.py.
use proxy_gateway_console_pu.Json.{
  null, dict, get_or, bool, dict_or_empty, eq_str, arr, str, get, nat, fields, truthy, obj, Fields,
  Json,
}
use proxy_gateway_console_pu.SessionStore.{
  lift, World, FilePath, read_session, Store, ensure, Action, ◌>>=◌, ◌>>◌,
}
use proxy_gateway_console_pu.Outcome.{ok}
use proxy_gateway_console_pu.Prelude.{
  false, [], ◌<>◌, ◌∷◌, true, ◌&&◌, ◌==◌, if◌then◌else◌, String, Bool,
}
use proxy_gateway_console_pu.UnlockServer.{look_at_usb, unlock_status}
use proxy_gateway_console_pu.Host.{utc_now_iso, Host}
use proxy_gateway_console_pu.RuntimeLauncher.PhoneSetup.{phone_setup_from_session}
use proxy_gateway_console_pu.RuntimeLauncher.Plan.{build_runtime_plan}
use proxy_gateway_console_pu.RuntimeLauncher.Launch.{runtime_status}
use proxy_gateway_console_pu.UsbIdentity.{detect_usb}
use proxy_gateway_console_pu.ProfileCrypto.{encrypted_profile_status}

module _ (h : Host) where
  -- `SessionStore()` within a command: the action starts in the default directory, and the caller's
  -- store keeps its own.
  abbrev pub on_new_store : {A : Type 0} → Action A → Action A
  on_new_store m s =
      let (r, t) = m (record s { runtime_dir = h.dirs.default_dir }) in
      (r, record t { runtime_dir = s.runtime_dir })

  -- resolve_profile_path, with "" for no path
  abbrev pub resolve_profile_path : String → FilePath
  resolve_profile_path path = if path == "" then h.default_profile_path else h.path_of path

  abbrev pub source : String → Bool → Json → Json → Json → Fields
  source mode present state path errors = fields (
      ("mode", str mode)
      ∷ ("present", bool present)
      ∷ ("state", state)
      ∷ ("path", path)
      ∷ ("errors", errors)
      ∷ [])

  abbrev pub local_present : Fields → Bool
  local_present local =
      truthy (get "present" local) && eq_str "encrypted_profile_present" (get "state" local)

  unfoldable pub choose_source : Fields → Fields → Fields
  choose_source local usb =
      if local_present local
      then source "local" true (get "state" local) (get "path" local) (arr [])
      else if truthy (get "profilePresent" usb)
      then source "recovery" true (str "recovery_profile_present")
          (get_or "profilePath" (str "") usb) (get_or "errors" (arr []) usb)
      else source "local" false (get "state" local) (get "path" local)
          (get_or "errors" (arr []) local)

  unfoldable pub profile_source_status : World → String → String → Fields
  profile_source_status w profile_path usb_root =
      choose_source (encrypted_profile_status w (resolve_profile_path profile_path))
        (detect_usb h w usb_root)

  abbrev pub enabled : Bool
  enabled = h.feature_flag == "1"

  -- The state and the summary.
  unfoldable pub status_line : Bool → Json → Json → String × String
  status_line is_enabled runtime_state manifest =
      if is_enabled && eq_str "running" (get "state" (dict_or_empty runtime_state))
      then ("running", "v2 LAN proxy child is running; v1 fallback remains active")
      else if is_enabled && truthy manifest
      then (
        "manifest_ready",
        "v2 session manifest is ready; no network child services are started in this slice",
      )
      else if is_enabled
      then ("locked_or_disabled", "v2 agent enabled but locked; no session manifest exists")
      else ("locked_or_disabled", "v2 agent disabled; v1 fallback remains active")

  unfoldable pub inventory : Store → Json
  inventory s = obj (
      ("runtimeDir", str s.runtime_dir)
      ∷ ("sessionPath", str (s.runtime_dir <> "/session.json"))
      ∷ ("tokenPath", str (s.runtime_dir <> "/unlock-token.json"))
      ∷ ("eventsPath", str (s.runtime_dir <> "/events.jsonl"))
      ∷ ("stateDir", str (s.runtime_dir <> "/state"))
      ∷ ("logsDir", str (s.runtime_dir <> "/logs"))
      ∷ ("storage", str "tmpfs-or-runtime-dir")
      ∷ [])

  unfoldable pub status_report : Json → Fields → Json → Fields → Json → Json → Json → Store → Fields
  status_report manifest usb unlock profile_source runtime_plan runtime_state phone_setup s =
      let (state, summary) = status_line enabled runtime_state manifest in
      fields (
        ("version", nat 2)
        ∷ ("ok", bool true)
        ∷ ("enabled", bool enabled)
        ∷ ("state", str state)
        ∷ ("summary", str summary)
        ∷ ("generatedAt", str (utc_now_iso h))
        ∷ ("runtimeDir", str s.runtime_dir)
        ∷ ("sessionPath", str (s.runtime_dir <> "/session.json"))
        ∷ ("usb", dict usb)
        ∷ ("profileSource", dict profile_source)
        ∷ ("unlock", unlock)
        ∷ (
          "privateRuntime",
          obj (("state", str "tmpfs") ∷ ("logs", str "redacted") ∷ ("inventory", inventory s) ∷ []),
        )
        ∷ ("session", manifest)
        ∷ ("runtimePlan", runtime_plan)
        ∷ ("runtimeState", runtime_state)
        ∷ ("phoneSetup", phone_setup)
        ∷ [])

  unfoldable pub status_steps : String → String → Action Fields
  status_steps usb_root profile_path = do
    ensure h.dirs
    manifest ← read_session h.dirs
    usb ← look_at_usb h usb_root
    unlock ← unlock_status h usb_root
    profile_source ← (λ s. (ok (profile_source_status s.world profile_path usb_root), s))
    runtime_plan ← lift (build_runtime_plan manifest null)
    runtime_state ← runtime_status h
    phone_setup ← lift (phone_setup_from_session h manifest)
    λ s. (
      ok (
          status_report manifest usb unlock profile_source runtime_plan runtime_state phone_setup
            s),
      s,
    )

  unfoldable pub build_status : String → String → Action Fields
  build_status usb_root profile_path = on_new_store (status_steps usb_root profile_path)
