-- ===== src/GatewayAgent/Stop.antt =====
-- The locked state that `stop_session` of agent/gateway_agent.py aims at, and the steps of that command.
pub mod Whole
pub mod Watch
use proxy_gateway_console_pu.Json.{
  get_or, bool, dict_or_empty, Json, get, nil, dict, cons, Items, null, Fields,
}
use proxy_gateway_console_pu.Prelude.{
  eq_iff, ◌==◌, ap, is_some, arith, ◌∙◌, inr, ◌⊎◌, inl, some, Bool, Option, ℤ, false, ◌≡◌, refl,
  none, true, String, [],
}
use proxy_gateway_console_pu.SessionStore.{
  File, events_path, same_path, FilePath, append_line, write_event, remove_token, remove_session,
  pure, unlink, set_file, Store, World, content, ensure, read_session, read_token, read_json,
  session_path, token_path, ◌>>=◌, ◌>>◌,
}
use proxy_gateway_console_pu.UnlockServer.{
  lock, unlock_report, fields_of, drop_expired, unlock_status,
}
use proxy_gateway_console_pu.SessionStore.Returns.{Returns-weaken, Returns-bind, Returns}
use proxy_gateway_console_pu.Outcome.{os_error, raised, ok}
use proxy_gateway_console_pu.RuntimeLauncher.Plan.{as_int, plan_listeners, build_runtime_plan}
use proxy_gateway_console_pu.RuntimeLauncher.Launch.{
  stop_report, Stopped, signal, stop_pid, stop_children, stop_runtime, status_report,
  split_children, children_of, runtime_status, child_state_path,
}
use proxy_gateway_console_pu.UsbIdentity.{detect_usb}
use proxy_gateway_console_pu.GatewayAgent.Status.{status_steps, build_status}
use proxy_gateway_console_pu.RuntimeLauncher.PhoneSetup.{phone_setup_from_session}
use proxy_gateway_console_pu.Host.{Host}

-- The store of a command in the runtime directory.
abbrev pub store_of : Host → World → Store
store_of h w = record { runtime_dir = h.dirs.default_dir; world = w }

abbrev pub file_at : Host → World → (Store → FilePath) → Option File
file_at h w path = w.files (path (store_of h w))

-- There is no session, no token and no child state in the runtime directory.
pub record IsLocked (h : Host) (w : World) : Type 0 where
  pub no_session : w.files (session_path (store_of h w)) ≡ none
  pub no_token : w.files (token_path (store_of h w)) ≡ none
  pub no_children : w.files (child_state_path (store_of h w)) ≡ none

-- kill(pid, SIGTERM) answers, or raises an `OSError`: what _terminate_pid can do.
abbrev pub Kills : Host → Type 0
Kills h =
    (pid : ℤ)
    → ((b : Bool) × (h.kill pid ≡ ok b))
      ⊎ ((kind : String) × (errno : Option ℤ) × (m : String) × (h.kill pid
            ≡ raised (os_error kind errno m)))

abbrev pub AreDicts : Items → Type 0
AreDicts nil = Unit
AreDicts (cons (dict fs) xs) = AreDicts xs
AreDicts (cons _ xs) = ⊥

-- The recorded children, if there are any, are a list of dicts.
abbrev pub HasChildren : Host → World → Type 0
HasChildren h w =
    (xs : Items) × (children_of (content (w.files (child_state_path (store_of h w)))) ≡ ok xs)
    × AreDicts xs

-- The command is in the runtime directory, and P holds of the world.
abbrev pub At : {A : Type 0} → Host → (World → Type 0) → A → Store → Type 0
At h P a u = (w : World) × (u ≡ store_of h w) × P w

module _ (h : Host) (kills : Kills h) where
  signal-returns :
      (pid : ℤ) (t : Stopped) (w : World)
      → Returns (signal h pid t) (store_of h w) (At h (λ w'. w'.files ≡ w.files))
  unfolding signal
  signal-returns pid t w = elim (kills pid) [
    | inl (true, e) ↦ rw e (_, refl, refl)
    | inl (false, e) ↦ rw e (_, refl, refl)
    | inr (kind, errno, m, e) ↦ rw e (_, refl, refl)
  ]

  stop_pid-returns :
      (pid : Option ℤ) (t : Stopped) (w : World)
      → Returns (stop_pid h pid t) (store_of h w) (At h (λ w'. w'.files ≡ w.files))
  unfolding stop_pid
  stop_pid-returns none t w = (w, refl, refl)
  stop_pid-returns (some pid) t w = signal-returns pid t w

  stop_children-returns :
      (xs : Items) (t : Stopped) (w : World)
      → AreDicts xs
      → Returns (stop_children h xs t) (store_of h w) (At h (λ w'. w'.files ≡ w.files))
  unfolding stop_children
  stop_children-returns nil t w a = (w, refl, refl)
  stop_children-returns (cons (dict child) xs) t w a =
      Returns-bind (stop_pid h (as_int (get "pid" child)) t) (stop_children h xs) (store_of h w)
        (At h (λ w'. w'.files ≡ w.files)) (At h (λ w'. w'.files ≡ w.files)) (stop_pid-returns _ t w)
        (λ t' u (w', e, same). rw e (
          Returns-weaken (stop_children h xs t') (store_of h w') _ _
            (stop_children-returns xs t' w' a) (λ b v (w'', e', same'). (w'', e', same' ∙ same))))
  stop_children-returns (cons null xs) t w a = absurd a
  stop_children-returns (cons v xs) t w a = ground arith

module _ (h : Host) (usable : h.dirs.is_usable h.dirs.default_dir ≡ true) where
  pub ensure_default : (w : World) → ensure h.dirs (store_of h w) ≡ (ok tt, store_of h w)
  unfolding ensure
  ensure_default w = rw usable refl

  pub read_session_default :
      (w : World)
      → read_session h.dirs (store_of h w)
        ≡ (ok (content (w.files (session_path (store_of h w)))), store_of h w)
  unfolding read_session read_json
  read_session_default w = rw (ensure_default w) refl

  unlock_status-locked :
      (usb_root : String) (w : World)
      → IsLocked h w
      → unlock_status h usb_root (store_of h w)
        ≡ (ok (unlock_report h null false (detect_usb h w usb_root)), store_of h w)
  unfolding unlock_status drop_expired read_token read_json
  unlock_status-locked usb_root w locked = rw (ensure_default w) (rw locked.no_token refl)

  runtime_status-locked :
      (w : World)
      → IsLocked h w
      → runtime_status h (store_of h w)
        ≡ (ok (status_report h [] [] (child_state_path (store_of h w))), store_of h w)
  unfolding runtime_status children_of split_children read_json
  runtime_status-locked w locked = rw (ensure_default w) (rw locked.no_children refl)

  -- From the locked state, `build_status` returns and changes nothing.
  pub build_status-locked :
      (usb_root profile_path : String) (w : World)
      → IsLocked h w
      → Returns (build_status h usb_root profile_path) (store_of h w) (λ report t. t ≡ store_of h w)
  unfolding build_status status_steps build_runtime_plan phone_setup_from_session plan_listeners
  build_status-locked usb_root profile_path w locked = rw (ensure_default w) (
      rw (read_session_default w) (
        rw locked.no_session
          (rw (unlock_status-locked usb_root w locked) (rw (runtime_status-locked w locked) refl))))

  unlinked :
      (w w' : World) (v : Json)
      → w'.files ≡ w.files
      → Returns
          (do unlink h.dirs child_state_path; pure v)
          (store_of h w')
          (At h (λ x. x.files ≡ (set_file (child_state_path (store_of h w)) none w).files))
  unfolding unlink set_file child_state_path
  unlinked w w' v same = (_, refl, rw same refl)

  pub stop_runtime-returns :
      (w : World)
      → Kills h
      → HasChildren h w
      → Returns
          (stop_runtime h)
          (store_of h w)
          (At h (λ x. x.files ≡ (set_file (child_state_path (store_of h w)) none w).files))
  unfolding stop_runtime read_json
  stop_runtime-returns w kills (xs, e, dicts) = rw (ensure_default w) (
      rw e (
        Returns-bind (stop_children h xs (record { stopped = 0; errors = [] })) _ (store_of h w)
          (At h (λ w'. w'.files ≡ w.files)) _ (stop_children-returns h kills xs _ w dicts)
          (λ t u (w', is, same). rw is (unlinked w w' (stop_report h t) same))))

  pub remove_session_default :
      (w : World)
      → remove_session h.dirs (store_of h w) ≡ (
        ok (is_some (w.files (session_path (store_of h w)))),
        store_of h (set_file (session_path (store_of h w)) none w),
      )
  unfolding remove_session unlink
  remove_session_default w = rw (ensure_default w) refl

  pub lock_default :
      (w : World)
      → Returns (lock h) (store_of h w) (λ v u.
        (x : World) × (u ≡ store_of h x)
        × ((p : FilePath)
            → same_path (events_path (store_of h w)) p ≡ false
            → x.files p ≡ (set_file (token_path (store_of h w)) none w).files p)
        × (get_or "removedToken" (bool false) (dict_or_empty v)
            ≡ bool (is_some (w.files (token_path (store_of h w))))))
  unfolding lock remove_token unlink write_event append_line
  lock_default w = rw (ensure_default w) (
      rw (ensure_default (set_file (token_path (store_of h w)) none w))
        (_, refl, (λ p other. unfold set_file in rw other refl), refl))

  set_file-same : (p : FilePath) (f : Option File) (w : World) → (set_file p f w).files p ≡ f
  unfolding set_file
  set_file-same p f w =
      let n : (p.name == p.name) ≡ true = (eq_iff p.name p.name).1 refl in
      let d : (p.dir == p.dir) ≡ true = (eq_iff p.dir p.dir).1 refl in rw n (rw d refl)

  pub set_file-other :
      (p q : FilePath) (f : Option File) (w : World)
      → same_path p q ≡ false
      → (set_file p f w).files q ≡ w.files q
  unfolding set_file
  set_file-other p q f w e = rw e refl

  -- What the three removals leave.
  pub removals-IsLocked :
      (w w1 w3 : World)
      → w1.files ≡ (set_file (child_state_path (store_of h w)) none w).files
      → ((p : FilePath)
          → same_path (events_path (store_of h w)) p ≡ false
          → w3.files p
            ≡ (set_file
                  (token_path (store_of h w))
                  none
                  (set_file (session_path (store_of h w)) none w1)).files
                p)
      → IsLocked h w3
  unfolding child_state_path
  removals-IsLocked w w1 w3 e after = record {
    no_session =
        after (session_path (store_of h w)) refl
        ∙ set_file-other (token_path (store_of h w)) (session_path (store_of h w)) none _ refl
        ∙ set_file-same (session_path (store_of h w)) none w1;
    no_token =
        after (token_path (store_of h w)) refl ∙ set_file-same (token_path (store_of h w)) none _;
    no_children =
        after (child_state_path (store_of h w)) refl
        ∙ set_file-other (token_path (store_of h w)) (child_state_path (store_of h w)) none _ refl
        ∙ set_file-other (session_path (store_of h w)) (child_state_path (store_of h w)) none w1
            refl
        ∙ ap (λ f. f (child_state_path (store_of h w))) e
        ∙ set_file-same (child_state_path (store_of h w)) none w;
  }
