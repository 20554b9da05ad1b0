-- ===== src/LinuxLifecycle.antt =====
-- agent/linux_lifecycle.py: the status of the installed control layer, and its stop and removal.
pub mod Removal
use proxy_gateway_console_pu.Prelude.{
  ◌&&◌, ◌==◌, ◌++◌, String, Bool, List, [], ◌∷◌, ◌<>◌, ◌||◌, true, false, if◌then◌else◌, map,
}
use proxy_gateway_console_pu.RuntimeLauncher.Launch.{stop_runtime}
use proxy_gateway_console_pu.Host.{Host}
use proxy_gateway_console_pu.SessionStore.{
  World, Store, Action, ◌>>=◌, ◌>>◌, pure, lift, remove_session, remove_token, ensure,
}
use proxy_gateway_console_pu.Outcome.{Outcome, ok, raised, os_error}
use proxy_gateway_console_pu.Json.{Json, Fields, fields, obj, arr, str, bool, dict, merge}

-- The home directories and the calls of pathlib and shutil. `remove` is rmtree of a directory and unlink
-- of anything else: false where it raises `FileNotFoundError`.
pub record Layer : Type 0 where
  pub home : String
  pub config_home : String
  pub exists : World → String → Bool
  pub remove : String → World → Outcome Bool × World

-- One turn of the removals: the report on the path, and whether it has an error.
pub record Removed : Type 0 where
  pub path : String
  pub existed : Bool
  pub removed : Bool
  pub error : String

abbrev pub removed_json : Removed → Json
removed_json r = obj (
    ("path", str r.path)
    ∷ ("existed", bool r.existed)
    ∷ ("removed", bool r.removed)
    ∷ ("error", str r.error)
    ∷ [])

-- all(not item["error"] for item in removed)
unfoldable pub no_removal_error : List Removed → Bool
no_removal_error [] = true
no_removal_error (r ∷ rs) = r.error == "" && no_removal_error rs

module _ (l : Layer) where
  -- project_paths
  unfoldable pub config_dir : String
  config_dir = l.config_home <> "/proxy-gateway"

  unfoldable pub wrapper : String
  wrapper = l.home <> "/.local/bin/gateway-agent"

  unfoldable pub service : String
  service = l.config_home <> "/systemd/user/gateway-agent.service"

  -- _path_status
  unfoldable pub path_status : World → String → List (String × Json)
  path_status w path = ("path", str path) ∷ ("present", bool (l.exists w path)) ∷ []

  unfoldable pub lifecycle_status : Store → Fields
  lifecycle_status s =
      let installed = l.exists s.world service || l.exists s.world wrapper in
      fields (
        ("ok", bool true)
        ∷ ("state", str (if installed then "installed" else "not_installed"))
        ∷ (
          "summary",
          str (
              if installed
              then "Linux v3 control layer is installed"
              else "Linux v3 control layer is not installed"),
        )
        ∷ (
          "contract",
          obj (("stop", str "preserve-config") ∷ ("uninstall", str "purge-project-owned") ∷ []),
        )
        ∷ (
          "config",
          obj (
              path_status s.world config_dir
              ++ ("profilePresent", bool (l.exists s.world (config_dir <> "/profile.json.enc")))
                ∷ []),
        )
        ∷ ("runtime", obj (path_status s.world s.runtime_dir))
        ∷ ("service", obj (path_status s.world service))
        ∷ ("wrapper", obj (path_status s.world wrapper))
        ∷ (
          "commands",
          obj (
              ("stop", str (wrapper <> " stop"))
              ∷ ("uninstallDryRun", str (wrapper <> " uninstall --dry-run"))
              ∷ ("uninstallApply", str (wrapper <> " uninstall --apply"))
              ∷ []),
        )
        ∷ [])

  abbrev pub status_with : List (String × Json) → Action Fields
  status_with updates s = (ok (merge (lifecycle_status s) (fields updates)), s)

  unfoldable pub after_remove : String → Bool → Outcome Bool → Outcome Removed
  after_remove path existed (ok b) =
      ok (record { path = path; existed = existed; removed = b; error = "" })
  after_remove path existed (raised (os_error kind errno message)) =
      ok (record { path = path; existed = existed; removed = false; error = message })
  after_remove path existed (raised e) = raised e

  -- _remove_path
  unfoldable pub remove_path : String → Action Removed
  remove_path path s =
      let (r, w) = l.remove path s.world in
      (after_remove path (l.exists s.world path) r, record s { world = w })

  unfoldable pub remove_paths : List String → Action (List Removed)
  remove_paths [] = pure []
  remove_paths (path ∷ rest) = do r ← remove_path path; rs ← remove_paths rest; pure (r ∷ rs)

  -- the paths in the order of their removal
  unfoldable pub planned : Store → List String
  planned s = service ∷ wrapper ∷ config_dir ∷ s.runtime_dir ∷ []

  module _ (h : Host) where
    unfoldable pub stop_control_layer : Action Fields
    stop_control_layer = do
      runtime_stop ← stop_runtime h
      removed_session ← remove_session h.dirs
      removed_token ← remove_token h.dirs
      status_with (
          ("state", str "stopped")
          ∷ ("summary", str "Linux v3 control layer stopped; local configuration preserved")
          ∷ ("runtimeStop", runtime_stop)
          ∷ ("removedSession", bool removed_session)
          ∷ ("removedToken", bool removed_token)
          ∷ [])

    unfoldable pub dry_run : Action Fields
    dry_run s =
        status_with
          (("applied", bool false)
            ∷ ("state", str "dry_run")
            ∷ ("summary", str "Dry-run only; no Linux v3 project-owned files were removed")
            ∷ ("remove", arr (map str (planned s)))
            ∷ [])
          s

    unfoldable pub apply_removal : List String → Action Fields
    apply_removal paths = do
      stopped ← stop_control_layer
      removed ← remove_paths paths
      status_with (
          ("ok", bool (no_removal_error removed))
          ∷ ("applied", bool true)
          ∷ ("state", str (if no_removal_error removed then "uninstalled" else "partial"))
          ∷ (
            "summary",
            str (
                if no_removal_error removed
                then "Linux v3 project-owned control files removed"
                else "Linux v3 uninstall completed with errors"),
          )
          ∷ ("stop", dict stopped)
          ∷ ("removed", arr (map removed_json removed))
          ∷ [])

    -- The paths are those of the store before it is stopped.
    unfoldable pub uninstall_control_layer : Bool → Action Fields
    uninstall_control_layer apply s = if apply then apply_removal (planned s) s else dry_run s
