-- ===== src/GatewayAgent/Logs.antt =====
-- The event log under the actions of agent/gateway_agent.py that need no cipher.
pub mod Commands
use proxy_gateway_console_pu.GatewayAgent.Status.{
  profile_source_status, status_steps, build_status, on_new_store,
}
use proxy_gateway_console_pu.Json.{truthy, null, nil, get, dict, cons, Items, Fields, Json}
use proxy_gateway_console_pu.GatewayAgent.Session.{
  start_steps, stop_steps, blocked_status, runtime_blocked, record_session, on_manifest,
  start_session, stop_session,
}
use proxy_gateway_console_pu.GatewayAgent.Watchdog.{
  watch_steps, daemon_steps, stop_because, clean_stale, watch_act, watchdog_once, daemon_turn,
  daemon_turns, daemon_loop,
}
use proxy_gateway_console_pu.Prelude.{
  ℕ, Bool-cases, inl, inr, zero, suc, not, none, some, Bool, ℤ, Option, List, String,
}
use proxy_gateway_console_pu.UnlockServer.{
  store_token, on_profile, unlock_with, unlock, fields_of, drop_expired, unlock_status, lock,
}
use proxy_gateway_console_pu.GatewayAgent.Profile.{
  store_local_token, on_local, unlock_local_profile, start_with, start_command,
}
use proxy_gateway_console_pu.ProfileCrypto.{Crypto}
use proxy_gateway_console_pu.RuntimeLauncher.Plan.{as_int}
use proxy_gateway_console_pu.SessionStore.Keeps.{Keeps-if, Keeps-bind, keeps_rules, Keeps}
use proxy_gateway_console_pu.Outcome.{
  runtime_error, value_error, profile_crypto_error, os_error, raised, ok, Outcome,
}
use proxy_gateway_console_pu.SessionStore.Log.{log_rules, LogsRedacted}
use proxy_gateway_console_pu.SessionStore.{new_store, lift, json, Action, ◌>>=◌}
use proxy_gateway_console_pu.RuntimeLauncher.Launch.{
  Stopped, signal, stop_pid, stop_children, stop_runtime, runtime_status, spawn_process,
  after_spawn, launch, launch_child, start_runtime,
}
use proxy_gateway_console_pu.Host.{Host}

module _ (h : Host) where
  pub on_new_store-LogsRedacted :
      {A : Type 0} (m : Action A) → Keeps LogsRedacted m → Keeps LogsRedacted (on_new_store h m)
  on_new_store-LogsRedacted m k = record {
    at = λ s p. k.at (record s { runtime_dir = h.dirs.default_dir }) p;
  }

  signal-LogsRedacted : (pid : ℤ) (t : Stopped) → Keeps LogsRedacted (signal h pid t)
  unfolding signal
  signal-LogsRedacted pid t = record { at = λ s p. record { at_path = p.at_path } }

  stop_pid-LogsRedacted : (pid : Option ℤ) (t : Stopped) → Keeps LogsRedacted (stop_pid h pid t)
  unfolding stop_pid
  stop_pid-LogsRedacted none t = search keeps_rules
  stop_pid-LogsRedacted (some pid) t = signal-LogsRedacted pid t

  stop_children-LogsRedacted :
      (xs : Items) (t : Stopped) → Keeps LogsRedacted (stop_children h xs t)
  unfolding stop_children
  stop_children-LogsRedacted nil t = search keeps_rules
  stop_children-LogsRedacted (cons (dict child) xs) t =
      Keeps-bind LogsRedacted (stop_pid h (as_int (get "pid" child)) t) (stop_children h xs)
        (stop_pid-LogsRedacted _ t) (stop_children-LogsRedacted xs)
  stop_children-LogsRedacted (cons null xs) t = search keeps_rules
  stop_children-LogsRedacted (cons v xs) t = search keeps_rules

  stop_runtime-LogsRedacted : Keeps LogsRedacted (stop_runtime h)
  unfolding stop_runtime
  stop_runtime-LogsRedacted = search (log_rules, stop_children-LogsRedacted) depth 9

  pub runtime_status-LogsRedacted : Keeps LogsRedacted (runtime_status h)
  unfolding runtime_status
  runtime_status-LogsRedacted = search log_rules

  spawn_process-LogsRedacted :
      (command : List String) → Keeps LogsRedacted (spawn_process h command)
  unfolding spawn_process
  spawn_process-LogsRedacted command = record { at = λ s p. record { at_path = p.at_path } }

  after_spawn-LogsRedacted :
      (r : Outcome ℤ) (child : Fields) (command : List String) (fallback : Json)
      → Keeps LogsRedacted (after_spawn h r child command fallback)
  unfolding after_spawn
  after_spawn-LogsRedacted (ok pid) child command fallback = search log_rules
  after_spawn-LogsRedacted (raised (os_error k n m)) child command fallback = search log_rules
  after_spawn-LogsRedacted (raised e) child command fallback = search log_rules

  launch-LogsRedacted :
      (child : Fields) (fallback : Json) → Keeps LogsRedacted (launch h child fallback)
  unfolding launch
  launch-LogsRedacted child fallback =
      search
        (log_rules, stop_runtime-LogsRedacted, spawn_process-LogsRedacted, after_spawn-LogsRedacted)

  launch_child-LogsRedacted :
      (child : Option Fields) (fallback : Json) → Keeps LogsRedacted (launch_child h child fallback)
  unfolding launch_child
  launch_child-LogsRedacted none fallback = search log_rules
  launch_child-LogsRedacted (some child) fallback = launch-LogsRedacted child fallback

  pub start_runtime-LogsRedacted :
      (plan : Fields) (dry allow : Bool) → Keeps LogsRedacted (start_runtime h plan dry allow)
  unfolding start_runtime
  start_runtime-LogsRedacted plan dry allow = search (log_rules, launch_child-LogsRedacted) depth 9

  drop_expired-LogsRedacted : (token : Json) → Keeps LogsRedacted (drop_expired h token)
  unfolding drop_expired
  drop_expired-LogsRedacted token = search log_rules depth 9

  pub unlock_status-LogsRedacted :
      (usb_root : String) → Keeps LogsRedacted (unlock_status h usb_root)
  unfolding unlock_status
  unlock_status-LogsRedacted usb_root = search (log_rules, drop_expired-LogsRedacted)

  lock-LogsRedacted : Keeps LogsRedacted (lock h)
  unfolding lock
  lock-LogsRedacted = search log_rules

  pub build_status-LogsRedacted :
      (usb_root profile_path : String) → Keeps LogsRedacted (build_status h usb_root profile_path)
  unfolding build_status status_steps
  build_status-LogsRedacted usb_root profile_path =
      on_new_store-LogsRedacted (status_steps h usb_root profile_path)
        (search (log_rules, unlock_status-LogsRedacted, runtime_status-LogsRedacted) depth 12)

  blocked_status-LogsRedacted :
      (updates : List (String × Json)) → Keeps LogsRedacted (blocked_status h updates)
  unfolding blocked_status
  blocked_status-LogsRedacted updates = search (log_rules, build_status-LogsRedacted)

  runtime_blocked-LogsRedacted : (error : Json) → Keeps LogsRedacted (runtime_blocked h error)
  unfolding runtime_blocked
  runtime_blocked-LogsRedacted error = search blocked_status-LogsRedacted

  record_session-LogsRedacted :
      (lan_host : String) (manifest : Json)
      → Keeps LogsRedacted (record_session h lan_host manifest)
  unfolding record_session
  record_session-LogsRedacted lan_host manifest =
      search (log_rules, build_status-LogsRedacted) depth 9

  on_manifest-LogsRedacted :
      (lan_host : String) (r : Outcome Json) → Keeps LogsRedacted (on_manifest h lan_host r)
  unfolding on_manifest
  on_manifest-LogsRedacted lan_host (ok manifest) = search record_session-LogsRedacted
  on_manifest-LogsRedacted lan_host (raised (runtime_error m)) = search runtime_blocked-LogsRedacted
  on_manifest-LogsRedacted lan_host (raised (value_error m)) = search runtime_blocked-LogsRedacted
  on_manifest-LogsRedacted lan_host (raised (os_error k n m)) = search runtime_blocked-LogsRedacted
  on_manifest-LogsRedacted lan_host (raised e) = search log_rules

  pub start_session-LogsRedacted :
      (lan_host : String) → Keeps LogsRedacted (start_session h lan_host)
  unfolding start_session start_steps
  start_session-LogsRedacted lan_host =
      on_new_store-LogsRedacted (start_steps h lan_host)
        (search (log_rules, blocked_status-LogsRedacted, on_manifest-LogsRedacted))

  pub stop_session-LogsRedacted : Keeps LogsRedacted (stop_session h)
  unfolding stop_session stop_steps
  stop_session-LogsRedacted = on_new_store-LogsRedacted (stop_steps h) (
      search (log_rules, stop_runtime-LogsRedacted, lock-LogsRedacted, build_status-LogsRedacted)
        depth 9)

  stop_because-LogsRedacted :
      (state summary reason : String) (extra : List (String × Json))
      → Keeps LogsRedacted (stop_because h state summary reason extra)
  unfolding stop_because
  stop_because-LogsRedacted state summary reason extra =
      search (log_rules, stop_session-LogsRedacted) depth 9

  clean_stale-LogsRedacted :
      (runtime_state : Json) → Keeps LogsRedacted (clean_stale h runtime_state)
  unfolding clean_stale
  clean_stale-LogsRedacted runtime_state = search (log_rules, stop_runtime-LogsRedacted) depth 9

  watch_act-LogsRedacted :
      (session : Json) (usb : Fields) (runtime_state : Json) (profile_source : Fields)
      → Keeps LogsRedacted (watch_act h session usb runtime_state profile_source)
  unfolding watch_act
  watch_act-LogsRedacted session usb runtime_state profile_source =
      search (log_rules, stop_because-LogsRedacted, clean_stale-LogsRedacted)

  pub watchdog_once-LogsRedacted :
      (usb_root profile_path : String) → Keeps LogsRedacted (watchdog_once h usb_root profile_path)
  unfolding watchdog_once watch_steps
  watchdog_once-LogsRedacted usb_root profile_path =
      on_new_store-LogsRedacted (watch_steps h usb_root profile_path)
        (search (log_rules, runtime_status-LogsRedacted, watch_act-LogsRedacted) depth 9)

  daemon_turn-LogsRedacted :
      (usb_root profile_path : String) → Keeps LogsRedacted (daemon_turn h usb_root profile_path)
  unfolding daemon_turn
  daemon_turn-LogsRedacted usb_root profile_path =
      search (log_rules, watchdog_once-LogsRedacted) depth 9

  daemon_turns-LogsRedacted :
      (n : ℕ) (usb_root profile_path : String)
      → Keeps LogsRedacted (daemon_turns h n usb_root profile_path)
  unfolding daemon_turns
  daemon_turns-LogsRedacted zero usb_root profile_path = search daemon_turn-LogsRedacted
  daemon_turns-LogsRedacted (suc n) usb_root profile_path =
      Keeps-bind LogsRedacted (daemon_turn h usb_root profile_path)
        (λ _. daemon_turns h n usb_root profile_path)
        (daemon_turn-LogsRedacted usb_root profile_path)
        (λ _. daemon_turns-LogsRedacted n usb_root profile_path)

  pub daemon_loop-LogsRedacted :
      (usb_root profile_path : String) (interval : Json) (iterations : ℕ)
      → Keeps LogsRedacted (daemon_loop h usb_root profile_path interval iterations)
  unfolding daemon_loop daemon_steps
  daemon_loop-LogsRedacted usb_root profile_path interval iterations =
      on_new_store-LogsRedacted (daemon_steps h usb_root profile_path interval iterations)
        (search (log_rules, daemon_turns-LogsRedacted) depth 9)
