-- ===== src/GatewayAgent/Logs/Commands.antt =====
-- The event log under the commands of agent/gateway_agent.py.
use proxy_gateway_console_pu.GatewayAgent.Logs.{
  daemon_loop-LogsRedacted, watchdog_once-LogsRedacted, unlock_status-LogsRedacted,
  start_session-LogsRedacted, start_runtime-LogsRedacted, stop_session-LogsRedacted,
  build_status-LogsRedacted, on_new_store-LogsRedacted,
}
use proxy_gateway_console_pu.UnlockServer.{text_path, store_token, on_profile, unlock_with, unlock}
use proxy_gateway_console_pu.Json.{get, truthy, Json, Fields}
use proxy_gateway_console_pu.ProfileCrypto.{read_encrypted_profile, Crypto}
use proxy_gateway_console_pu.SessionStore.Log.{log_rules, LogsRedacted}
use proxy_gateway_console_pu.Prelude.{not, Bool, String, List, [], ◌∷◌, Bool-cases, inl, inr}
use proxy_gateway_console_pu.SessionStore.Keeps.{Keeps-if, Keeps}
use proxy_gateway_console_pu.SessionStore.{World, Store, new_store}
use proxy_gateway_console_pu.GatewayAgent.Commands.{
  Command, unlock_command, lock_command, plan_of_session, dry_run, phone_setup_command, dispatch,
  main, run_all, status, start, stop, lock_all, unlock_state, unlock_profile, watchdog, daemon_once,
  runtime_plan, runtime_start_dry_run, runtime_start, phone_setup,
}
use proxy_gateway_console_pu.Outcome.{Outcome, profile_crypto_error, ok, raised}
use proxy_gateway_console_pu.GatewayAgent.Profile.{
  store_local_token, on_local, unlock_local_profile, start_with, start_command,
  runtime_start_command,
}
use proxy_gateway_console_pu.Host.{Host}
use proxy_gateway_console_pu.GatewayAgent.Status.{profile_source_status}

module _ (h : Host) (c : Crypto) where
  store_token-LogsRedacted :
      (passphrase : String) (profile : Json) (usb : Fields)
      → Keeps LogsRedacted (store_token h c passphrase profile usb)
  unfolding store_token
  store_token-LogsRedacted passphrase profile usb = search log_rules depth 9

  on_profile-LogsRedacted :
      (r : Outcome Json) (passphrase : String) (usb : Fields)
      → Keeps LogsRedacted (on_profile h c r passphrase usb)
  unfolding on_profile
  on_profile-LogsRedacted (ok profile) passphrase usb = search store_token-LogsRedacted
  on_profile-LogsRedacted (raised (profile_crypto_error m)) passphrase usb = search log_rules
  on_profile-LogsRedacted (raised e) passphrase usb = search log_rules

  read_profile-LogsRedacted :
      (r : Store → Outcome Json) (passphrase : String) (usb : Fields)
      → Keeps LogsRedacted (λ s. on_profile h c (r s) passphrase usb s)
  read_profile-LogsRedacted r passphrase usb = record {
    at = λ s p. (on_profile-LogsRedacted (r s) passphrase usb).at s p;
  }

  unlock_with-LogsRedacted :
      (usb : Fields) (passphrase : String) → Keeps LogsRedacted (unlock_with h c usb passphrase)
  unfolding unlock_with
  unlock_with-LogsRedacted usb passphrase = search (
    log_rules,
    read_profile-LogsRedacted
        (λ s. read_encrypted_profile c s.world (text_path h c (get "profilePath" usb)) passphrase),
  )

  unlock-LogsRedacted :
      (usb_root passphrase : String) → Keeps LogsRedacted (unlock h c usb_root passphrase)
  unfolding unlock
  unlock-LogsRedacted usb_root passphrase = search (log_rules, unlock_with-LogsRedacted)

  store_local_token-LogsRedacted :
      (passphrase : String) (profile : Json) (source : Fields)
      → Keeps LogsRedacted (store_local_token h c passphrase profile source)
  unfolding store_local_token
  store_local_token-LogsRedacted passphrase profile source = search log_rules depth 9

  on_local-LogsRedacted :
      (r : Outcome Json) (passphrase : String) (source : Fields)
      → Keeps LogsRedacted (on_local h c r passphrase source)
  unfolding on_local
  on_local-LogsRedacted (ok profile) passphrase source = search store_local_token-LogsRedacted
  on_local-LogsRedacted (raised (profile_crypto_error m)) passphrase source = search log_rules
  on_local-LogsRedacted (raised e) passphrase source = search log_rules

  unlock_local_profile-LogsRedacted :
      (profile_path passphrase : String)
      → Keeps LogsRedacted (unlock_local_profile h c profile_path passphrase)
  unfolding unlock_local_profile
  unlock_local_profile-LogsRedacted profile_path passphrase = record {
    at = λ s p.
        elim (Bool-cases
          (not (truthy (get "present" (profile_source_status h s.world profile_path ""))))) [
            | inl absent ↦ rw absent p
            | inr present ↦ rw present ((on_local-LogsRedacted _ passphrase _).at s p)
          ];
  }

  start_with-LogsRedacted :
      (r : Outcome Json) (source : Fields) (allow_child : Bool)
      → Keeps LogsRedacted (start_with h c r source allow_child)
  unfolding start_with
  start_with-LogsRedacted (ok profile) source allow_child =
      search (log_rules, start_runtime-LogsRedacted)
  start_with-LogsRedacted (raised (profile_crypto_error m)) source allow_child = search log_rules
  start_with-LogsRedacted (raised e) source allow_child = search log_rules

  start_command-LogsRedacted :
      (profile_path passphrase : String) (allow_child : Bool)
      → Keeps LogsRedacted (start_command h c profile_path passphrase allow_child)
  unfolding start_command
  start_command-LogsRedacted profile_path passphrase allow_child = record {
    at = λ s p.
        elim (Bool-cases
          (not (truthy (get "present" (profile_source_status h s.world profile_path ""))))) [
            | inl absent ↦ rw absent p
            | inr present ↦ rw present ((start_with-LogsRedacted _ _ allow_child).at s p)
          ];
  }

  runtime_start_command-LogsRedacted :
      (profile_path passphrase : String) (allow_child : Bool)
      → Keeps LogsRedacted (runtime_start_command h c profile_path passphrase allow_child)
  unfolding runtime_start_command
  runtime_start_command-LogsRedacted profile_path passphrase allow_child =
      on_new_store-LogsRedacted h (start_command h c profile_path passphrase allow_child)
        (start_command-LogsRedacted profile_path passphrase allow_child)

  unlock_command-LogsRedacted :
      (usb_root profile_path passphrase : String)
      → Keeps LogsRedacted (unlock_command h c usb_root profile_path passphrase)
  unfolding unlock_command
  unlock_command-LogsRedacted usb_root profile_path passphrase = record {
    at = λ s p.
        (Keeps-if LogsRedacted _ _ _ (unlock_local_profile-LogsRedacted profile_path passphrase)
            (unlock-LogsRedacted usb_root passphrase)).at
          s p;
  }

  lock_command-LogsRedacted : Keeps LogsRedacted (lock_command h c)
  unfolding lock_command
  lock_command-LogsRedacted = search (log_rules, stop_session-LogsRedacted)

  plan_of_session-LogsRedacted : Keeps LogsRedacted (plan_of_session h c)
  unfolding plan_of_session
  plan_of_session-LogsRedacted = search log_rules

  dry_run-LogsRedacted : Keeps LogsRedacted (dry_run h c)
  unfolding dry_run
  dry_run-LogsRedacted =
      search (log_rules, plan_of_session-LogsRedacted, start_runtime-LogsRedacted)

  phone_setup_command-LogsRedacted : Keeps LogsRedacted (phone_setup_command h c)
  unfolding phone_setup_command
  phone_setup_command-LogsRedacted = search log_rules

  dispatch-LogsRedacted : (command : Command) → Keeps LogsRedacted (dispatch h c command)
  unfolding dispatch
  dispatch-LogsRedacted (status usb_root profile_path) =
      search (log_rules, build_status-LogsRedacted)
  dispatch-LogsRedacted (start lan_host) = search (log_rules, start_session-LogsRedacted)
  dispatch-LogsRedacted stop = search (log_rules, stop_session-LogsRedacted)
  dispatch-LogsRedacted lock_all = search (log_rules, lock_command-LogsRedacted)
  dispatch-LogsRedacted (unlock_state usb_root) = search (log_rules, unlock_status-LogsRedacted)
  dispatch-LogsRedacted (unlock_profile usb_root profile_path passphrase) =
      search (log_rules, unlock_command-LogsRedacted)
  dispatch-LogsRedacted (watchdog usb_root profile_path) =
      search (log_rules, watchdog_once-LogsRedacted)
  dispatch-LogsRedacted (daemon_once usb_root profile_path interval) =
      search (log_rules, daemon_loop-LogsRedacted)
  dispatch-LogsRedacted runtime_plan = search (log_rules, plan_of_session-LogsRedacted)
  dispatch-LogsRedacted runtime_start_dry_run = search (log_rules, dry_run-LogsRedacted)
  dispatch-LogsRedacted (runtime_start profile_path passphrase allow_child) =
      search (log_rules, runtime_start_command-LogsRedacted)
  dispatch-LogsRedacted phone_setup = search (log_rules, phone_setup_command-LogsRedacted)

  main-LogsRedacted :
      (command : Command) (w : World) → LogsRedacted w → LogsRedacted (main h c command w).1
  unfolding main new_store
  main-LogsRedacted command w p =
      (dispatch-LogsRedacted command).at (record { runtime_dir = h.dirs.default_dir; world = w }) p

-- Whatever commands processes run, one after the other, each on the system and with the medium and the
-- clock that it then finds: if every line of every log was redacted before, every line of every log is
-- redacted after.
pub run_all-LogsRedacted :
    (c : Crypto) (runs : List (Host × Command)) (w : World)
    → LogsRedacted w
    → LogsRedacted (run_all c runs w)
unfolding run_all
run_all-LogsRedacted c [] w p = p
run_all-LogsRedacted c ((h, command) ∷ rest) w p =
    run_all-LogsRedacted c rest (main h c command w).1 (main-LogsRedacted h c command w p)
