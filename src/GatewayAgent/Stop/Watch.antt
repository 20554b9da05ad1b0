-- ===== src/GatewayAgent/Stop/Watch.antt =====
-- The watchdog of agent/gateway_agent.py, where it has to lock.
use proxy_gateway_console_pu.RuntimeLauncher.Launch.{status_report}
use proxy_gateway_console_pu.GatewayAgent.Status.{profile_source_status, on_new_store}
use proxy_gateway_console_pu.GatewayAgent.Stop.{
  read_session_default, raised, inr, inl, dict, cons, ensure_default, store_of, IsLocked, Kills,
  HasChildren, file_at, AreDicts,
}
use proxy_gateway_console_pu.RuntimeLauncher.Launch.{
  children_of, is_active, child_state_path, runtime_status, split_children,
}
use proxy_gateway_console_pu.UsbIdentity.{detect_usb, is_bad_usb}
use proxy_gateway_console_pu.SessionStore.{
  content, read_json, set_file, Store, World, session_path, Action, write_event, append_line,
}
use proxy_gateway_console_pu.Json.{truthy, fields, null, nil, str, get, Fields, Json, Items}
use proxy_gateway_console_pu.Json.Laws.{lookup-merge, UniqueKeys}
use proxy_gateway_console_pu.GatewayAgent.Watchdog.{
  watch_act, watch_steps, watchdog_once, stop_because,
}
use proxy_gateway_console_pu.Outcome.{Outcome, ok}
use proxy_gateway_console_pu.Prelude.{
  arith, Bool-cases, false, refl, List, String, true, ◌≡◌, [], ◌∷◌,
}
use proxy_gateway_console_pu.RuntimeLauncher.Plan.{as_int}
use proxy_gateway_console_pu.GatewayAgent.Stop.Whole.{stop_session-locks}
use proxy_gateway_console_pu.GatewayAgent.Session.{stop_session}
use proxy_gateway_console_pu.Host.{Host}
use proxy_gateway_console_pu.SessionStore.Returns.{Returns, Returns-bind, Satisfied}

-- The runtime directory is locked, and the report names the reason.
abbrev pub Locks : Host → String → Fields → Store → Type 0
Locks h state report u = IsLocked h u.world × (get "state" report ≡ str state)

module _ (h : Host) (usable : h.dirs.is_usable h.dirs.default_dir ≡ true) where
  split_children-returns :
      (xs : Items)
      → AreDicts xs
      → (active : List Json) × (stale : List Json) × (split_children h xs ≡ ok (active, stale))
  unfolding split_children
  split_children-returns nil a = ([], [], refl)
  split_children-returns (cons (dict child) xs) a =
      let (active, stale, e) = split_children-returns xs a in
      elim (Bool-cases (is_active h (as_int (get "pid" child)))) [
        | inl on ↦ (dict child ∷ active, stale, rw e (rw on refl))
        | inr off ↦ (active, dict child ∷ stale, rw e (rw off refl))
      ]
  split_children-returns (cons null xs) a = absurd a
  split_children-returns (cons v xs) a = ground arith

  -- A report on the recorded children, which changes nothing.
  runtime_status-returns :
      (w : World)
      → HasChildren h w
      → Returns (runtime_status h) (store_of h w) (λ r u. u ≡ store_of h w)
  unfolding runtime_status read_json
  runtime_status-returns w (xs, e, dicts) =
      let (active, stale, split) = split_children-returns xs dicts in
      rw (ensure_default h usable w) (rw e (rw split refl))

  write_event-IsLocked :
      (event : Fields) (w : World)
      → IsLocked h w
      → Returns (write_event h.dirs event) (store_of h w) (λ r u. IsLocked h u.world)
  unfolding write_event append_line set_file child_state_path
  write_event-IsLocked event w locked = rw (ensure_default h usable w) (record {
    no_session = locked.no_session;
    no_token = locked.no_token;
    no_children = locked.no_children;
  })

  stop_because-returns :
      (state summary reason : String) (extra : List (String × Json)) (w : World)
      → UniqueKeys (fields (("state", str state) ∷ ("summary", str summary) ∷ extra))
      → Kills h
      → HasChildren h w
      → Returns (stop_because h state summary reason extra) (store_of h w) (Locks h state)
  unfolding stop_because
  stop_because-returns state summary reason extra w unique kills children =
      Returns-bind (stop_session h) _ (store_of h w)
        (λ r u. (w' : World) × (u ≡ store_of h w') × IsLocked h w') (Locks h state)
        (stop_session-locks h usable w kills children)
        (λ stopped u (w', e, locked). rw e (
          Returns-bind (write_event h.dirs _) _ (store_of h w') (λ r u. IsLocked h u.world)
            (Locks h state) (write_event-IsLocked _ w' locked)
            (λ r t done. (
              done,
              rw
                  (lookup-merge "state" stopped
                    (fields (("state", str state) ∷ ("summary", str summary) ∷ extra)) unique)
                  refl,
            ))))

  on_new_store-Locks :
      (state : String) (m : Action Fields) (s : Store)
      → Returns m (store_of h s.world) (Locks h state)
      → Returns (on_new_store h m) s (Locks h state)
  on_new_store-Locks state m s p = back (m (store_of h s.world)).0 (m (store_of h s.world)).1 p
    where
      back :
          (r : Outcome Fields) (u : Store)
          → Satisfied r u (Locks h state)
          → Satisfied r (record u { runtime_dir = s.runtime_dir }) (Locks h state)
      back (ok report) u p = p
      back (raised x) u p = absurd p

  -- Where the runtime directory is usable, the recorded children are a list of dicts (or nothing
  -- readable), killing raises no more than `OSError` and there is a session: if the recovery medium is
  -- missing or not trusted, `watchdog_once` returns, reports "locked_removed", and leaves no session,
  -- no token and no child state, whatever else is running.
  pub watchdog_once-Locks :
      (usb_root profile_path : String) (s : Store)
      → Kills h
      → HasChildren h s.world
      → truthy (content (file_at h s.world session_path)) ≡ true
      → is_bad_usb (detect_usb h s.world usb_root) ≡ true
      → Returns (watchdog_once h usb_root profile_path) s (Locks h "locked_removed")
  unfolding watchdog_once watch_steps watch_act
  watchdog_once-Locks usb_root profile_path s kills children session bad =
      on_new_store-Locks "locked_removed" (watch_steps h usb_root profile_path) s (
        rw (ensure_default h usable s.world) (
          rw (read_session_default h usable s.world) (
            Returns-bind (runtime_status h) _ (store_of h s.world) (λ r u. u ≡ store_of h s.world)
              (Locks h "locked_removed") (runtime_status-returns s.world children)
              (λ r u e. rw e (
                rw session (
                  rw bad (
                    stop_because-returns "locked_removed" _ "usb" _ s.world
                      (refl, (refl, (refl, tt))) kills children)))))))

  -- The same conditions, with a medium that is not bad, at least one recorded child that runs, and no
  -- profile source left: `watchdog_once` returns, reports "profile_source_lost_locked", and leaves no
  -- session, no token and no child state.
  pub watchdog_once-Locks_without_profile :
      (usb_root profile_path : String) (s : Store) (xs : Items) (first : Json)
      (active stale : List Json)
      → Kills h
      → HasChildren h s.world
      → truthy (content (file_at h s.world session_path)) ≡ true
      → is_bad_usb (detect_usb h s.world usb_root) ≡ false
      → children_of (content (file_at h s.world child_state_path)) ≡ ok xs
      → split_children h xs ≡ ok (first ∷ active, stale)
      → truthy (get "present" (profile_source_status h s.world profile_path usb_root)) ≡ false
      → Returns (watchdog_once h usb_root profile_path) s (Locks h "profile_source_lost_locked")
  unfolding watchdog_once watch_steps watch_act runtime_status read_json status_report
  watchdog_once-Locks_without_profile usb_root profile_path s xs first active stale kills children
        session good is split lost =
      on_new_store-Locks "profile_source_lost_locked" (watch_steps h usb_root profile_path) s (
        rw (ensure_default h usable s.world) (
          rw (read_session_default h usable s.world) (
            rw (ensure_default h usable s.world) (
              rw is (
                rw split (
                  rw session (
                    rw good (
                      rw lost (
                        stop_because-returns "profile_source_lost_locked"
                          "v2 local profile source disappeared; session locked and child services stopped"
                          "profile-source-lost"
                          ((
                            "profileSource",
                            dict (profile_source_status h s.world profile_path usb_root),
                          )
                            ∷ [])
                          s.world (refl, (refl, (refl, tt))) kills children)))))))))
