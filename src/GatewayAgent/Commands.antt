-- ===== src/GatewayAgent/Commands.antt =====
-- `main` of agent/gateway_agent.py: the commands that touch the session, the token and the child. Each
-- starts with a new store and prints one redacted object.
use proxy_gateway_console_pu.UnlockServer.{unlock, unlock_status}
use proxy_gateway_console_pu.GatewayAgent.Profile.{unlock_local_profile, runtime_start_command}
use proxy_gateway_console_pu.Prelude.{
  [], ◌∷◌, ◌&&◌, false, true, if◌then◌else◌, Bool, ℕ, List, String,
}
use proxy_gateway_console_pu.GatewayAgent.Watchdog.{daemon_loop, watchdog_once}
use proxy_gateway_console_pu.Json.{
  get, null, truthy, str, eq_str, dict, put, dict_or_empty, Json, Fields,
}
use proxy_gateway_console_pu.RuntimeLauncher.Plan.{build_runtime_plan}
use proxy_gateway_console_pu.RuntimeLauncher.PhoneSetup.{phone_setup_from_session}
use proxy_gateway_console_pu.Outcome.{raised, ok, Outcome}
use proxy_gateway_console_pu.SessionStore.{
  lift, pure, read_session, new_store, World, Action, ◌>>=◌,
}
use proxy_gateway_console_pu.GatewayAgent.Session.{start_session, stop_session}
use proxy_gateway_console_pu.SessionStore.Redact.{redact_payload}
use proxy_gateway_console_pu.GatewayAgent.Status.{profile_source_status, build_status}
use proxy_gateway_console_pu.RuntimeLauncher.Launch.{start_runtime}
use proxy_gateway_console_pu.Host.{Host}
use proxy_gateway_console_pu.ProfileCrypto.{Crypto}

-- A command with its options; "" is an option that is not given.
pub data Command : Type 0 where
  status : (usb_root profile_path : String) → Command
  start : (lan_host : String) → Command
  stop lock_all : Command
  unlock_state : (usb_root : String) → Command
  unlock_profile : (usb_root profile_path passphrase : String) → Command
  watchdog : (usb_root profile_path : String) → Command
  daemon_once : (usb_root profile_path : String) (interval : Json) → Command
  runtime_plan : Command
  runtime_start_dry_run : Command
  runtime_start : (profile_path passphrase : String) (allow_child : Bool) → Command
  phone_setup : Command

module _ (h : Host) (c : Crypto) where
  abbrev pub always_0 : Action Fields → Action (ℕ × Json)
  always_0 m = do payload ← m; pure (0, dict payload)

  -- `0 if result.get("ok") else 2`
  abbrev pub by_ok : Action Json → Action (ℕ × Json)
  by_ok m = do
    result ← m
    pure ((if truthy (get "ok" (dict_or_empty result)) then 0 else 2), result)

  abbrev pub zero_of : Action Json → Action (ℕ × Json)
  zero_of m = do result ← m; pure (0, result)

  unfoldable pub lock_command : Action Fields
  lock_command = do
    result ← stop_session h
    pure (put "summary" (str "v2 locked; session and unlock token removed") result)

  -- A local profile that is there is unlocked before the recovery medium.
  unfoldable pub unlock_command : String → String → String → Action Json
  unlock_command usb_root profile_path passphrase s =
      let source = profile_source_status h s.world profile_path usb_root in
      (if eq_str "local" (get "mode" source) && truthy (get "present" source)
          then unlock_local_profile h c profile_path passphrase
          else unlock h c usb_root passphrase)
        s

  unfoldable pub plan_of_session : Action Json
  plan_of_session = do session ← read_session h.dirs; lift (build_runtime_plan session null)

  unfoldable pub dry_run : Action Json
  dry_run = do plan ← plan_of_session; start_runtime h (dict_or_empty plan) true false

  unfoldable pub phone_setup_command : Action Json
  phone_setup_command = do session ← read_session h.dirs; lift (phone_setup_from_session h session)

  -- The exit code and the payload.
  unfoldable pub dispatch : Command → Action (ℕ × Json)
  dispatch (status usb_root profile_path) = always_0 (build_status h usb_root profile_path)
  dispatch (start lan_host) = by_ok (start_session h lan_host)
  dispatch stop = always_0 (stop_session h)
  dispatch lock_all = always_0 lock_command
  dispatch (unlock_state usb_root) = zero_of (unlock_status h usb_root)
  dispatch (unlock_profile usb_root profile_path passphrase) =
      by_ok (unlock_command usb_root profile_path passphrase)
  dispatch (watchdog usb_root profile_path) = always_0 (watchdog_once h usb_root profile_path)
  dispatch (daemon_once usb_root profile_path interval) =
      always_0 (daemon_loop h usb_root profile_path interval 1)
  dispatch runtime_plan = zero_of plan_of_session
  dispatch runtime_start_dry_run = zero_of dry_run
  dispatch (runtime_start profile_path passphrase allow_child) =
      by_ok (runtime_start_command h c profile_path passphrase allow_child)
  dispatch phone_setup = zero_of phone_setup_command

  abbrev pub printed : Outcome (ℕ × Json) → Outcome (ℕ × Json)
  printed (ok (code, payload)) = ok (code, redact_payload payload)
  printed (raised e) = raised e

  -- The exit code and what is printed, and the world that the process leaves.
  unfoldable pub main : Command → World → Outcome (ℕ × Json) × World
  main command w = let (r, s) = dispatch command (new_store h.dirs w) in (printed r, s.world)

-- Processes one after the other, each in the system as it then is.
unfoldable pub run_all : Crypto → List (Host × Command) → World → World
run_all c [] w = w
run_all c ((h, command) ∷ rest) w = run_all c rest (main h c command w).1
