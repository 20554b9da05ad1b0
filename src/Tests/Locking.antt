-- ===== src/Tests/Locking.antt =====
-- The theorems on stopping, watching, expiry and starting, at concrete data.
use proxy_gateway_console_pu.UnlockServer.Expiry.{
  Answered, token_expired-new_token, unlock_status-Reported,
}
use proxy_gateway_console_pu.Host.{aware, Host}
use proxy_gateway_console_pu.Outcome.{raised, Exception, ok}
use proxy_gateway_console_pu.RuntimeLauncher.Gate.{
  lan_child, Started, IsStart, start_runtime-guarded, start_runtime-Started,
}
use proxy_gateway_console_pu.RuntimeLauncher.Launch.{
  child_in, child_state_path, is_active, start_runtime, children_of, split_children, child_by_id,
}
use proxy_gateway_console_pu.Prelude.{
  none, eq_iff, ◌==◌, arith, ◌∷◌, if◌then◌else◌, ◌*◌, leb, ◌≡◌, ◌+◌, ◌⊎◌, pos, refl, Option, true,
  some, false, [], inl,
}
use proxy_gateway_console_pu.Json.{
  dict, nil, get, truthy, nat, str, arr, cons, null, bool, obj, fields, Json, Fields,
}
use proxy_gateway_console_pu.SessionStore.{File, content, FilePath, Store, World, json}
use proxy_gateway_console_pu.GatewayAgent.Status.{choose_source, profile_source_status}
use proxy_gateway_console_pu.GatewayAgent.Session.{stop_session}
use proxy_gateway_console_pu.UsbIdentity.{is_bad_usb, detect_usb}
use proxy_gateway_console_pu.GatewayAgent.Watchdog.{watchdog_once}
use proxy_gateway_console_pu.ProfileCrypto.{encrypted_profile_status}
use proxy_gateway_console_pu.UnlockServer.{new_token, token_expired}
use proxy_gateway_console_pu.SessionStore.Returns.{Returns}
use proxy_gateway_console_pu.Tests.Sample.{host}
use proxy_gateway_console_pu.GatewayAgent.Stop.{store_of, Kills, HasChildren, file_at, IsLocked}
use proxy_gateway_console_pu.GatewayAgent.Stop.Whole.{Reports, stop_session-returns}
use proxy_gateway_console_pu.GatewayAgent.Stop.Watch.{
  Locks, watchdog_once-Locks, watchdog_once-Locks_without_profile,
}

abbrev session : Json
session = obj (("version", nat 2) ∷ ("sessionId", str "s1") ∷ [])

abbrev token : Fields
token = fields (("token", str "t") ∷ ("expiresAt", str "2026-01-01T00:00:00Z") ∷ [])

abbrev running : Json
running = obj (("children", arr (obj (("id", str "lanProxy") ∷ ("pid", nat 4242) ∷ []) ∷ [])) ∷ [])

abbrev files : FilePath → Option File
files p =
    if p.name == "session.json"
    then some (json session)
    else if p.name == "unlock-token.json"
    then some (json (dict token))
    else if p.name == "runtime-children.json"
    then some (json running)
    else none

abbrev open_world : World
open_world = record { files = files; signalled = []; spawned = [] }

abbrev here : Store
here = store_of host open_world

kills : Kills host
kills pid = inl (true, refl)

children : HasChildren host open_world
unfolding children_of child_state_path
children = (cons (obj (("id", str "lanProxy") ∷ ("pid", nat 4242) ∷ [])) nil, refl, tt)

stop_session-returns_example :
    Returns (stop_session host) here (λ report u. IsLocked host u.world × Reports true true report)
stop_session-returns_example = stop_session-returns host refl here kills children

missing : is_bad_usb (detect_usb host open_world "/media/usb") ≡ true
unfolding detect_usb
missing = refl

watchdog_once-Locks_example :
    Returns (watchdog_once host "/media/usb" "") here (Locks host "locked_removed")
watchdog_once-Locks_example =
    watchdog_once-Locks host refl "/media/usb" "" here kills children refl missing

not_missing : is_bad_usb (detect_usb host open_world "") ≡ false
unfolding detect_usb
not_missing = refl

recorded :
    children_of (content (file_at host open_world child_state_path))
    ≡ ok (cons (obj (("id", str "lanProxy") ∷ ("pid", nat 4242) ∷ [])) nil)
unfolding children_of child_state_path
recorded = refl

runs :
    split_children host (cons (obj (("id", str "lanProxy") ∷ ("pid", nat 4242) ∷ [])) nil)
    ≡ ok (obj (("id", str "lanProxy") ∷ ("pid", nat 4242) ∷ []) ∷ [], [])
unfolding split_children is_active
runs = refl

lost : truthy (get "present" (profile_source_status host open_world "" "")) ≡ false
unfolding profile_source_status detect_usb encrypted_profile_status choose_source
lost = refl

watchdog_once-Locks_without_profile_example :
    Returns (watchdog_once host "" "") here (Locks host "profile_source_lost_locked")
watchdog_once-Locks_without_profile_example =
    watchdog_once-Locks_without_profile host refl "" "" here _ _ _ _ kills children refl not_missing
      recorded runs lost

abbrev clock : Host
clock = record host { from_iso = λ s. some (aware (1000 + 900 * 1000000)); now = 2000 }

token_expired-new_token_example :
    token_expired clock (new_token host true "d" null []) ≡ ok (leb (1000 + 900 * 1000000) 2000)
token_expired-new_token_example =
    token_expired-new_token host clock true "d" null []
      (λ e. absurd (ground (arith, eq_iff "2026-01-01T00:00:00Z" ""))) refl

unlock_status-Reported_example : Answered host open_world "" (some (aware 5000))
unlock_status-Reported_example = unlock_status-Reported host refl "" open_world token refl refl

abbrev plan : Fields
plan = fields (
    ("ok", bool true)
    ∷ ("profileLoaded", bool true)
    ∷ (
      "children",
      arr (
          obj (("id", str "lanProxy") ∷ ("host", str "192.168.1.5") ∷ ("port", nat 20005) ∷ [])
          ∷ []),
    )
    ∷ [])

abbrev child : Fields
child = fields (("id", str "lanProxy") ∷ ("host", str "192.168.1.5") ∷ ("port", nat 20005) ∷ [])

child-IsStart : IsStart plan false true child
unfolding child_by_id child_in
child-IsStart = record { ok = refl; wet = refl; allowed = refl; loaded = refl; listener = refl }

start_runtime-guarded_example :
    ((c : Fields) × IsStart plan false false c)
    ⊎ (Returns (start_runtime host plan false false) here (λ report u. u ≡ here)
        ⊎ ((e : Exception) × (lan_child plan ≡ raised e)
            × (start_runtime host plan false false here ≡ (raised e, here))))
start_runtime-guarded_example = start_runtime-guarded host plan false false here

start_runtime-Started_example :
    Returns
      (start_runtime host plan false true)
      here
      (Started host open_world "192.168.1.5" (pos 20005) (pos 4242))
start_runtime-Started_example =
    start_runtime-Started host refl child "192.168.1.5" (pos 20005) (pos 4242) refl refl plan false
      true open_world child-IsStart kills children refl
