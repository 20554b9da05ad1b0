-- ===== src/GatewayAgent/Stop/Whole.antt =====
-- `stop_session` of agent/gateway_agent.py from its beginning to its end.
use proxy_gateway_console_pu.GatewayAgent.Stop.{
  removals-IsLocked, lock_default, remove_session_default, set_file-other, stop_runtime-returns,
  build_status-locked, raised, ok, store_of, IsLocked, Kills, HasChildren, file_at,
}
use proxy_gateway_console_pu.Prelude.{
  ◌∙◌, ap, sym, String, none, List, [], false, ◌∷◌, refl, is_some, true, ◌≡◌, Bool,
}
use proxy_gateway_console_pu.UnlockServer.{lock}
use proxy_gateway_console_pu.SessionStore.{
  remove_session, pure, Store, World, session_path, token_path, set_file, FilePath, same_path,
  ◌>>=◌,
}
use proxy_gateway_console_pu.Json.{fields, str, get_or, dict_or_empty, bool, Json, get, Fields}
use proxy_gateway_console_pu.RuntimeLauncher.Launch.{stop_runtime, child_state_path}
use proxy_gateway_console_pu.Json.Laws.{lookup-merge}
use proxy_gateway_console_pu.SessionStore.Returns.{Returns-bind, Returns, Satisfied}
use proxy_gateway_console_pu.GatewayAgent.Session.{stop_session, put_all, stop_steps}
use proxy_gateway_console_pu.GatewayAgent.Status.{build_status}
use proxy_gateway_console_pu.Outcome.{Outcome}
use proxy_gateway_console_pu.Host.{Host}

-- What the report says was removed.
abbrev pub Reports : Bool → Bool → Fields → Type 0
Reports session token report =
    (get "removedSession" report ≡ bool session) × (get "removedToken" report ≡ bool token)

-- The command has locked the runtime directory and says what it removed.
abbrev pub Stopped : Host → World → Fields → Store → Type 0
Stopped h w report u =
    (w' : World) × (u ≡ store_of h w')
    × IsLocked h w'
    × Reports (is_some (file_at h w session_path)) (is_some (file_at h w token_path)) report

abbrev updates : Bool → Json → List (String × Json)
updates session v =
    ("removedSession", bool session)
    ∷ ("removedToken", get_or "removedToken" (bool false) (dict_or_empty v))
    ∷ ("summary", str "v2 session manifest removed; v1 fallback remains active")
    ∷ []

module _ (h : Host) (usable : h.dirs.is_usable h.dirs.default_dir ≡ true) where
  put_all-Reports :
      (session token : Bool) (v : Json) (status : Fields)
      → get_or "removedToken" (bool false) (dict_or_empty v) ≡ bool token
      → Reports session token (put_all h status (updates session v))
  put_all-Reports session token v status e = (
    rw
        (lookup-merge "removedSession" status (fields (updates session v))
          (refl, (refl, (refl, tt))))
        refl,
    rw (lookup-merge "removedToken" status (fields (updates session v)) (refl, (refl, (refl, tt))))
        e,
  )

  reported :
      (w w3 : World) (session token : Bool) (v : Json)
      → IsLocked h w3
      → session ≡ is_some (file_at h w session_path)
      → token ≡ is_some (file_at h w token_path)
      → get_or "removedToken" (bool false) (dict_or_empty v) ≡ bool token
      → Returns
          (do status ← build_status h "" ""; pure (put_all h status (updates session v)))
          (store_of h w3)
          (Stopped h w)
  reported w w3 session token v locked s t e =
      Returns-bind (build_status h "" "") _ (store_of h w3) (λ report u. u ≡ store_of h w3)
        (Stopped h w) (build_status-locked h usable "" "" w3 locked)
        (λ status u same.
          (w3, same, locked, rw (sym s) (rw (sym t) (put_all-Reports session token v status e))))

  after_runtime :
      (w w1 : World)
      → w1.files ≡ (set_file (child_state_path (store_of h w)) none w).files
      → Returns
          (do
            removed ← remove_session h.dirs
            locked ← lock h
            status ← build_status h "" ""
            pure (put_all h status (updates removed locked)))
          (store_of h w1)
          (Stopped h w)
  unfolding child_state_path
  after_runtime w w1 same =
      let w2 : World = set_file (session_path (store_of h w)) none w1 in
      rw (remove_session_default h usable w1) (
        Returns-bind (lock h) _ (store_of h w2) _ (Stopped h w) (lock_default h usable w2)
          (λ v u (w3, is, after, flag). rw is (
            reported w w3 _ _ v (removals-IsLocked h usable w w1 w3 same after)
              (ap is_some (kept (session_path (store_of h w)) refl))
              (ap is_some (
                set_file-other h usable (session_path (store_of h w)) (token_path (store_of h w))
                  none w1 refl
                ∙ kept (token_path (store_of h w)) refl))
              flag)))
    where
      kept :
          (p : FilePath)
          → same_path (child_state_path (store_of h w)) p ≡ false
          → w1.files p ≡ w.files p
      kept p e =
          ap (λ f. f p) same ∙ set_file-other h usable (child_state_path (store_of h w)) p none w e

  stop_steps-returns :
      (w : World) → Kills h → HasChildren h w → Returns (stop_steps h) (store_of h w) (Stopped h w)
  unfolding stop_steps
  stop_steps-returns w kills children =
      Returns-bind (stop_runtime h) _ (store_of h w) _ (Stopped h w)
        (stop_runtime-returns h usable w kills children)
        (λ r u (w1, e, same). rw e (after_runtime w w1 same))

  -- From a store that is in the runtime directory or elsewhere, where that directory is usable, the
  -- recorded children are a list of dicts (or nothing readable) and killing raises no more than
  -- `OSError`: `stop_session` returns, it reports whether there was a session and whether there was a
  -- token, and it leaves no session, no token and no child state.
  pub stop_session-returns :
      (s : Store)
      → Kills h
      → HasChildren h s.world
      → Returns (stop_session h) s (λ report u.
        IsLocked h u.world
        × Reports
            (is_some (file_at h s.world session_path))
            (is_some (file_at h s.world token_path))
            report)
  unfolding stop_session
  stop_session-returns s kills children =
      closed (stop_steps h (store_of h s.world)).0 (stop_steps h (store_of h s.world)).1
        (stop_steps-returns s.world kills children)
    where
      closed :
          (r : Outcome Fields) (u : Store)
          → Satisfied r u (Stopped h s.world)
          → Satisfied r
              (record u { runtime_dir = s.runtime_dir })
              (λ report t.
                IsLocked h t.world
                × Reports
                    (is_some (file_at h s.world session_path))
                    (is_some (file_at h s.world token_path))
                    report)
      closed (ok report) u (w', e, locked, reports) = (rw e locked, reports)
      closed (raised x) u p = absurd p

  -- The same, for a caller in the runtime directory, who stays there.
  pub stop_session-locks :
      (w : World)
      → Kills h
      → HasChildren h w
      → Returns
          (stop_session h)
          (store_of h w)
          (λ r u. (w' : World) × (u ≡ store_of h w') × IsLocked h w')
  unfolding stop_session
  stop_session-locks w kills children =
      back (stop_steps h (store_of h w)).0 (stop_steps h (store_of h w)).1
        (stop_steps-returns w kills children)
    where
      back :
          (r : Outcome Fields) (u : Store)
          → Satisfied r u (Stopped h w)
          → Satisfied r
              (record u { runtime_dir = h.dirs.default_dir })
              (λ report t. (w' : World) × (t ≡ store_of h w') × IsLocked h w')
      back (ok report) u (w', e, locked, reports) = (w', rw e refl, locked)
      back (raised x) u p = absurd p
