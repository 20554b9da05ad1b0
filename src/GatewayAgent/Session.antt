-- ===== src/GatewayAgent/Session.antt =====
-- `start_session` and `stop_session` of agent/gateway_agent.py.
use proxy_gateway_console_pu.PortRegistry.{empty, build_session_manifest}
use proxy_gateway_console_pu.SessionStore.{
  lift, pure, write_event, write_session, remove_session, cleanup_stale_session, Action, ◌>>=◌,
  ◌>>◌,
}
use proxy_gateway_console_pu.RuntimeLauncher.Launch.{errno_json, stop_runtime}
use proxy_gateway_console_pu.Outcome.{os_error, value_error, runtime_error, raised, ok, Outcome}
use proxy_gateway_console_pu.Json.{
  dict_or_empty, null, get, get_or, dict, fields, str, merge, obj, bool, Fields, Json, put,
}
use proxy_gateway_console_pu.Prelude.{[], ◌∷◌, false, ◌==◌, not, List, if◌then◌else◌, String}
use proxy_gateway_console_pu.GatewayAgent.Status.{enabled, on_new_store, build_status}
use proxy_gateway_console_pu.UnlockServer.{lock}
use proxy_gateway_console_pu.Host.{Host}

module _ (h : Host) where
  abbrev pub put_all : Fields → List (String × Json) → Fields
  put_all status updates = merge status (fields updates)

  unfoldable pub blocked_status : List (String × Json) → Action Json
  blocked_status updates = do status ← build_status h "" ""; pure (dict (put_all status updates))

  unfoldable pub error_dict : String → Json → String → Json
  error_dict kind errno message =
      obj (("type", str kind) ∷ ("errno", errno) ∷ ("message", str message) ∷ [])

  unfoldable pub runtime_blocked : Json → Action Json
  runtime_blocked error = blocked_status (
      ("ok", bool false)
      ∷ ("state", str "runtime_blocked")
      ∷ (
        "summary",
        str "v2 session manifest could not be created; dynamic port allocation is unavailable",
      )
      ∷ ("error", error)
      ∷ [])

  -- `lan_host or os.environ.get(LAN_HOST_ENV)`
  abbrev pub selected : String → String
  selected lan_host = if lan_host == "" then h.lan_host else lan_host

  unfoldable pub record_session : String → Json → Action Json
  record_session lan_host manifest = do
    cleanup ← cleanup_stale_session h.dirs
    write_session h.dirs manifest
    write_event h.dirs (
        fields (
          ("event", str "start-session")
          ∷ ("sessionId", get "sessionId" (dict_or_empty manifest))
          ∷ ("lanHost", str lan_host)
          ∷ ("cleanup", cleanup)
          ∷ []))
    status ← build_status h "" ""
    pure (dict (put "staleCleanup" cleanup status))

  -- except (OSError, RuntimeError, ValueError)
  unfoldable pub on_manifest : String → Outcome Json → Action Json
  on_manifest lan_host (ok manifest) = record_session lan_host manifest
  on_manifest lan_host (raised (runtime_error m)) =
      runtime_blocked (error_dict "RuntimeError" null m)
  on_manifest lan_host (raised (value_error m)) = runtime_blocked (error_dict "ValueError" null m)
  on_manifest lan_host (raised (os_error kind errno m)) =
      runtime_blocked (error_dict kind (errno_json errno) m)
  on_manifest lan_host (raised e) = lift (raised e)

  unfoldable pub start_steps : String → Action Json
  start_steps lan_host =
      if not (enabled h)
      then blocked_status (
          ("ok", bool false)
          ∷ ("summary", str "set GATEWAY_AGENT_V2=1 to create a v2 session manifest")
          ∷ [])
      else on_manifest (selected lan_host) (
          build_session_manifest h.ports h "" empty (selected lan_host)
            (not (selected lan_host == "")))

  unfoldable pub start_session : String → Action Json
  start_session lan_host = on_new_store h (start_steps lan_host)

  unfoldable pub stop_steps : Action Fields
  stop_steps = do
    stop_runtime h
    removed ← remove_session h.dirs
    locked ← lock h
    status ← build_status h "" ""
    pure (
        put_all status (
          ("removedSession", bool removed)
          ∷ ("removedToken", get_or "removedToken" (bool false) (dict_or_empty locked))
          ∷ ("summary", str "v2 session manifest removed; v1 fallback remains active")
          ∷ []))

  unfoldable pub stop_session : Action Fields
  stop_session = on_new_store h stop_steps
