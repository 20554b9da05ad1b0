-- ===== src/LinuxLifecycle/Removal.antt =====
-- What stopping and removing the control layer of agent/linux_lifecycle.py leave.
use proxy_gateway_console_pu.LinuxLifecycle.{
  config_dir, wrapper, service, ◌∷◌, Layer, Removed, planned, uninstall_control_layer,
  stop_control_layer, remove_path, remove_paths, lifecycle_status, no_removal_error, removed_json,
  apply_removal, after_remove,
}
use proxy_gateway_console_pu.Prelude.{
  false, ◌<>◌, if◌then◌else◌, [], refl, ℤ, map, Option, Bool, ◌∙◌, is_some, inr, ◌⊎◌, none, true,
  inl, ◌≡◌, List, String,
}
use proxy_gateway_console_pu.Json.Laws.{lookup-merge, UniqueKeys}
use proxy_gateway_console_pu.Json.{str, fields, merge, Json, dict, arr, bool, get, Fields}
use proxy_gateway_console_pu.RuntimeLauncher.Launch.{child_state_path, stop_runtime}
use proxy_gateway_console_pu.GatewayAgent.Stop.{
  ensure_default, store_of, IsLocked, Kills, HasChildren, removals-IsLocked, stop_runtime-returns,
  remove_session_default,
}
use proxy_gateway_console_pu.SessionStore.Returns.{Returns-bind, Returns}
use proxy_gateway_console_pu.Host.{Host}
use proxy_gateway_console_pu.Outcome.{ok, raised, os_error}
use proxy_gateway_console_pu.SessionStore.{
  Store, World, FilePath, set_file, session_path, token_path, remove_token, unlink,
}

-- What pathlib and shutil document of a removal: it makes no file, and it raises no more than `OSError`.
pub record IsRemoval (l : Layer) : Type 0 where
  pub shrinks :
      (path : String) (w : World) (q : FilePath)
      → ((l.remove path w).1.files q ≡ w.files q) ⊎ ((l.remove path w).1.files q ≡ none)
  pub answers :
      (path : String) (w : World)
      → ((b : Bool) × ((l.remove path w).0 ≡ ok b))
        ⊎ ((kind : String) × (errno : Option ℤ) × (m : String) × ((l.remove path w).0
              ≡ raised (os_error kind errno m)))

-- The report on a path says what its removal answered in the world in which it was called.
abbrev pub IsReportOn : Layer → String → Removed → Type 0
IsReportOn l path r =
    (r.path ≡ path)
    × ((w : World) × (r.existed ≡ l.exists w path)
        × ((((l.remove path w).0 ≡ ok r.removed) × (r.error ≡ ""))
            ⊎ ((kind : String) × (errno : Option ℤ) × ((l.remove path w).0
                  ≡ raised (os_error kind errno r.error))
                × (r.removed ≡ false))))

-- One report for each path, in order.
unfoldable pub ReportOn : Layer → List String → List Removed → Type 0
ReportOn l [] [] = Unit
ReportOn l (path ∷ paths) (r ∷ rs) = IsReportOn l path r × ReportOn l paths rs
ReportOn l paths rs = ⊥

-- The unit file, the wrapper, the configuration and the runtime directory.
abbrev pub four_paths : Layer → String → List String
four_paths l runtime_dir =
    (l.config_home <> "/systemd/user/gateway-agent.service")
    ∷ (l.home <> "/.local/bin/gateway-agent")
    ∷ (l.config_home <> "/proxy-gateway")
    ∷ runtime_dir
    ∷ []

-- The report of a removal that was applied: its list has one entry for each path, which says what its
-- removal answered, and it is "ok" if and only if no entry has an error.
abbrev pub Applied : Layer → List String → Fields → Type 0
Applied l paths report =
    (get "applied" report ≡ bool true)
    × ((rs : List Removed) × ReportOn l paths rs
        × (get "removed" report ≡ arr (map removed_json rs))
        × (get "ok" report ≡ bool (no_removal_error rs)))

abbrev updates : Json → List Removed → Fields
updates stopped rs = fields (
    ("ok", bool (no_removal_error rs))
    ∷ ("applied", bool true)
    ∷ ("state", str (if no_removal_error rs then "uninstalled" else "partial"))
    ∷ (
      "summary",
      str (
          if no_removal_error rs
          then "Linux v3 project-owned control files removed"
          else "Linux v3 uninstall completed with errors"),
    )
    ∷ ("stop", stopped)
    ∷ ("removed", arr (map removed_json rs))
    ∷ [])

merge-Applied :
    (l : Layer) (paths : List String) (status : Fields) (stopped : Json) (rs : List Removed)
    → ReportOn l paths rs
    → Applied l paths (merge status (updates stopped rs))
merge-Applied l paths status stopped rs e = (
  rw (lookup-merge "applied" status (updates stopped rs) unique) refl,
  (
    rs,
    e,
    rw (lookup-merge "removed" status (updates stopped rs) unique) refl,
    rw (lookup-merge "ok" status (updates stopped rs) unique) refl,
  ),
)
  where
    unique : UniqueKeys (updates stopped rs)
    unique = (refl, (refl, (refl, (refl, (refl, (refl, tt))))))

module _ (h : Host) (l : Layer) (removal : IsRemoval l) where
  none_stays :
      (path : String) (w : World) (q : FilePath)
      → w.files q ≡ none
      → (l.remove path w).1.files q ≡ none
  none_stays path w q e = elim (removal.shrinks path w q) [ inl same ↦ same ∙ e | inr gone ↦ gone ]

  remove-IsLocked : (path : String) (w : World) → IsLocked h w → IsLocked h (l.remove path w).1
  unfolding child_state_path
  remove-IsLocked path w locked = record {
    no_session = none_stays path w _ locked.no_session;
    no_token = none_stays path w _ locked.no_token;
    no_children = none_stays path w _ locked.no_children;
  }

  remove_path-IsLocked :
      (path : String) (s : Store)
      → IsLocked h s.world
      → Returns (remove_path l path) s (λ r u. IsLocked h u.world × IsReportOn l path r)
  unfolding remove_path after_remove
  remove_path-IsLocked path s locked = elim (removal.answers path s.world) [
    | inl (b, e) ↦
        rw e (remove-IsLocked path s.world locked, (refl, (s.world, refl, inl (e, refl))))
    | inr (kind, errno, m, e) ↦
        rw e
          (remove-IsLocked path s.world locked, (refl, (s.world, refl, inr (kind, errno, e, refl))))
  ]

  remove_paths-IsLocked :
      (paths : List String) (s : Store)
      → IsLocked h s.world
      → Returns (remove_paths l paths) s (λ rs u. IsLocked h u.world × ReportOn l paths rs)
  unfolding remove_paths ReportOn
  remove_paths-IsLocked [] s locked = (locked, tt)
  remove_paths-IsLocked (path ∷ rest) s locked =
      Returns-bind (remove_path l path) _ s (λ r u. IsLocked h u.world × IsReportOn l path r) _
        (remove_path-IsLocked path s locked)
        (λ r u (there, said).
          Returns-bind (remove_paths l rest) _ u _ _ (remove_paths-IsLocked rest u there)
            (λ rs v (done, n). (done, (said, n))))

  module _ (usable : h.dirs.is_usable h.dirs.default_dir ≡ true) where
    remove_token_default :
        (w : World)
        → remove_token h.dirs (store_of h w) ≡ (
          ok (is_some (w.files (token_path (store_of h w)))),
          store_of h (set_file (token_path (store_of h w)) none w),
        )
    unfolding remove_token unlink
    remove_token_default w = rw (ensure_default h usable w) refl

    stop_control_layer-returns :
        (w : World)
        → Kills h
        → HasChildren h w
        → Returns (stop_control_layer l h) (store_of h w) (λ report u. IsLocked h u.world)
    unfolding stop_control_layer
    stop_control_layer-returns w kills children =
        Returns-bind (stop_runtime h) _ (store_of h w) _ (λ report u. IsLocked h u.world)
          (stop_runtime-returns h usable w kills children)
          (λ r u (w1, e, same). rw e (
            rw (remove_session_default h usable w1) (
              rw (remove_token_default (set_file (session_path (store_of h w)) none w1))
                (removals-IsLocked h usable w w1 _ same (λ p other. refl)))))

    -- Where the runtime directory is usable, what children are recorded are a list of dicts, and killing
    -- and removing raise no more than `OSError`: `uninstall_control_layer` with `apply` returns, leaves
    -- no session, no token and no child state, reports on the unit file, the wrapper, the configuration and
    -- the runtime directory what the removal of each answered, and is "ok" if and only if none of the four
    -- reports has an error.
    pub uninstall_control_layer-Applied :
        (w : World)
        → Kills h
        → HasChildren h w
        → Returns
            (uninstall_control_layer l h true)
            (store_of h w)
            (λ report u. IsLocked h u.world × Applied l (four_paths l h.dirs.default_dir) report)
    unfolding uninstall_control_layer apply_removal planned service wrapper config_dir
    uninstall_control_layer-Applied w kills children =
        Returns-bind (stop_control_layer l h) _ (store_of h w) (λ r u. IsLocked h u.world) _
          (stop_control_layer-returns w kills children)
          (λ stopped u locked.
            Returns-bind (remove_paths l (planned l (store_of h w))) _ u
              (λ rs u. IsLocked h u.world × ReportOn l (four_paths l h.dirs.default_dir) rs) _
              (remove_paths-IsLocked (planned l (store_of h w)) u locked)
              (λ rs v (done, n).
                (done, merge-Applied l _ (lifecycle_status l v) (dict stopped) rs n)))
