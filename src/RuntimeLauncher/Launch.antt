-- ===== src/RuntimeLauncher/Launch.antt =====
-- `start_runtime`, `stop_runtime` and `runtime_status` of agent/runtime_launcher.py.
use proxy_gateway_console_pu.Outcome.{
  type_error, key_error, attribute_error, os_error, raised, ok, Outcome,
}
use proxy_gateway_console_pu.Json.{
  lookup, arr, dict_or_empty, fields, eq_str, truthy, get, null, get_or, dict, nil, int, bool, nat,
  end, cons, Fields, obj, field, merge, list, str, Json, Items,
}
use proxy_gateway_console_pu.Prelude.{
  ◌=?◌, map, ◌==◌, show_ℤ, [], false, not, true, none, Bool, ◌∷◌, ◌<>◌, if◌then◌else◌, some, Option,
  List, ◌++◌, String, ℕ, ◌+◌, ℤ,
}
use proxy_gateway_console_pu.RuntimeLauncher.Plan.{no_errors, as_int}
use proxy_gateway_console_pu.SessionStore.{
  unlink, lift, state_dir, read_json, FilePath, set_world, pure, ensure, write_json, Store, Action,
  ◌>>=◌, ◌>>◌,
}
use proxy_gateway_console_pu.Host.{utc_now_iso, Host}

abbrev pub blocked : String → Fields → Json
blocked summary extra = dict (
    merge (fields (("ok", bool false) ∷ ("state", str "blocked") ∷ ("summary", str summary) ∷ []))
      extra)

-- f"{V1_FAILOVER_HOST}:{V1_FAILOVER_PORT}"
abbrev pub upstream : String
upstream = "127.0.0.1:18180"

-- The entries of the list at k, or none: `state.get(k) if isinstance(state.get(k), list) else []`.
abbrev pub list_or_empty : Json → Items
list_or_empty (list xs) = xs
list_or_empty v = nil

-- _child_by_id, over `plan.get("children", [])`: `get` on what is no dict raises `AttributeError`
unfoldable pub child_in : Items → String → Outcome (Option Fields)
child_in nil id = ok none
child_in (cons (dict child) rest) id =
    if eq_str id (get "id" child) then ok (some child) else child_in rest id
child_in (cons _ rest) id = raised attribute_error

-- A text and a dict are gone through by character and by key.
unfoldable pub child_by_id : Json → String → Outcome (Option Fields)
child_by_id (list xs) id = child_in xs id
child_by_id (str s) id = if s == "" then ok none else raised attribute_error
child_by_id (dict end) id = ok none
child_by_id (dict (field k v fs)) id = raised attribute_error
child_by_id v id = raised type_error

-- fs[k]
abbrev present : Option Json → Outcome Json
present (some v) = ok v
present none = raised key_error

abbrev pub item : String → Fields → Outcome Json
item k fs = present (lookup k fs)

unfoldable pub child_state_path : Store → FilePath
child_state_path s = record { dir = state_dir s; name = "runtime-children.json" }

-- `read_json(path) or {}`, then `state.get("children")`
unfoldable pub children_of : Json → Outcome Items
children_of v =
    if truthy v
    then (elim v [ dict fs ↦ ok (list_or_empty (get "children" fs)) | _ ↦ raised attribute_error ])
    else ok nil

abbrev pub errno_json : Option ℤ → Json
errno_json none = null
errno_json (some z) = int z

-- What `stop_runtime` counts: the processes that it stopped, and the errors.
pub record Stopped : Type 0 where
  pub stopped : ℕ
  pub errors : List Json

abbrev pub one_more : Stopped → Stopped
one_more t = record t { stopped = t.stopped + 1 }

abbrev pub kill_error : ℤ → String → String → Stopped → Stopped
kill_error pid kind message t = record t {
  errors =
      t.errors
      ++ (obj (("pid", int pid) ∷ ("type", str kind) ∷ ("message", str message) ∷ [])) ∷ [];
}

abbrev pub after_kill : ℤ → Outcome Bool → Stopped → Outcome Stopped
after_kill pid (ok true) t = ok (one_more t)
after_kill pid (ok false) t = ok t
after_kill pid (raised (os_error kind errno message)) t = ok (kill_error pid kind message t)
after_kill pid (raised e) t = raised e

module _ (h : Host) where
  -- killer(pid), which the world records
  unfoldable pub signal : ℤ → Stopped → Action Stopped
  signal pid t s = (
    after_kill pid (h.kill pid) t,
    set_world (λ w. record w { signalled = w.signalled ++ pid ∷ [] }) s,
  )

  -- one turn of the loop
  unfoldable pub stop_pid : Option ℤ → Stopped → Action Stopped
  stop_pid none t = pure t
  stop_pid (some pid) t = signal pid t

  unfoldable pub stop_children : Items → Stopped → Action Stopped
  stop_children nil t = pure t
  stop_children (cons (dict child) rest) t = do
    t' ← stop_pid (as_int (get "pid" child)) t
    stop_children rest t'
  stop_children (cons _ rest) t = lift (raised attribute_error)

  unfoldable pub stop_report : Stopped → Json
  stop_report t = obj (
      ("ok", bool (no_errors t.errors))
      ∷ ("state", str "stopped")
      ∷ (
        "summary",
        str (
            if 0 =? t.stopped
            then "no v2 child services were running"
            else "v2 child services stopped"),
      )
      ∷ ("stoppedChildProcesses", nat t.stopped)
      ∷ ("errors", arr t.errors)
      ∷ [])

  unfoldable pub stop_runtime : Action Json
  stop_runtime = do
    ensure h.dirs
    state ← read_json h.dirs child_state_path
    children ← lift (children_of state)
    t ← stop_children children (record { stopped = 0; errors = [] })
    unlink h.dirs child_state_path
    pure (stop_report t)

  unfoldable pub is_active : Option ℤ → Bool
  is_active none = false
  is_active (some pid) = h.is_running pid

  -- The children that run and those that do not, in order.
  unfoldable pub split_children : Items → Outcome (List Json × List Json)
  split_children nil = ok ([], [])
  split_children (cons (dict child) rest) = elim (split_children rest) [
    | ok (active, stale) ↦ ok (
        if is_active (as_int (get "pid" child))
        then (dict child ∷ active, stale)
        else (active, dict child ∷ stale))
    | raised e ↦ raised e
  ]
  split_children (cons _ rest) = raised attribute_error

  abbrev pub state_of : List Json → List Json → String
  state_of (_ ∷ _) stale = "running"
  state_of [] (_ ∷ _) = "stale"
  state_of [] [] = "stopped"

  abbrev pub path_text : FilePath → String
  path_text p = p.dir <> "/" <> p.name

  unfoldable pub status_report : List Json → List Json → FilePath → Json
  status_report active stale path = obj (
      ("ok", bool (not (state_of active stale == "stale")))
      ∷ ("state", str (state_of active stale))
      ∷ ("children", arr active)
      ∷ ("staleChildren", arr stale)
      ∷ ("statePath", str (path_text path))
      ∷ [])

  unfoldable pub runtime_status : Action Json
  runtime_status = do
    ensure h.dirs
    state ← read_json h.dirs child_state_path
    children ← lift (children_of state)
    (active, stale) ← lift (split_children children)
    λ s. (ok (status_report active stale (child_state_path s)), s)

  -- str(v)
  abbrev pub text_of : Json → String
  text_of (str s) = s
  text_of (int z) = show_ℤ z
  text_of (bool true) = "True"
  text_of (bool false) = "False"
  text_of null = "None"
  text_of v = h.str_of v

  -- _lan_proxy_command, by its host and its port
  unfoldable pub command_for : Json → Json → List String
  command_for host port =
      h.executable
      ∷ h.child_script
      ∷ "--listen-host"
      ∷ text_of host
      ∷ "--listen-port"
      ∷ text_of port
      ∷ "--upstream-host"
      ∷ "127.0.0.1"
      ∷ "--upstream-port"
      ∷ "18180"
      ∷ []

  abbrev pub command_from : Outcome Json → Outcome Json → Outcome (List String)
  command_from (ok host) (ok port) = ok (command_for host port)
  command_from (ok host) (raised e) = raised e
  command_from (raised e) port = raised e

  unfoldable pub lan_proxy_command : Fields → Outcome (List String)
  lan_proxy_command listener = command_from (item "host" listener) (item "port" listener)

  unfoldable pub child_state : ℤ → Json → Json → List String → Json
  child_state pid host port command = obj (
      ("version", nat 2)
      ∷ ("startedAt", str (utc_now_iso h))
      ∷ (
        "children",
        arr (
            obj (
              ("id", str "lanProxy")
              ∷ ("pid", int pid)
              ∷ ("host", host)
              ∷ ("port", port)
              ∷ ("upstream", str upstream)
              ∷ ("command", arr (map str command))
              ∷ [])
            ∷ []),
      )
      ∷ [])

  -- spawn(command), which the world records
  unfoldable pub spawn_process : List String → Action (Outcome ℤ)
  spawn_process command s =
      (ok (h.spawn command), set_world (λ w. record w { spawned = w.spawned ++ command ∷ [] }) s)

  abbrev pub spawn_failure : String → Option ℤ → String → Json → Json
  spawn_failure kind errno message fallback =
      blocked "v2 LAN proxy child failed to start; v1 fallback remains active" (
        field "error"
          (obj (("type", str kind) ∷ ("errno", errno_json errno) ∷ ("message", str message) ∷ []))
          (field "fallback" fallback end))

  abbrev pub started_report : Json → Json → Json
  started_report state fallback = obj (
      ("ok", bool true)
      ∷ ("state", str "running")
      ∷ ("summary", str "v2 LAN proxy child started; v1 fallback remains active")
      ∷ ("children", get "children" (dict_or_empty state))
      ∷ ("fallback", fallback)
      ∷ [])

  unfoldable pub after_spawn : Outcome ℤ → Fields → List String → Json → Action Json
  after_spawn (ok pid) child command fallback = do
    host ← lift (item "host" child)
    port ← lift (item "port" child)
    path ← (λ s. (ok (child_state_path s), s))
    write_json h.dirs path (child_state pid host port command)
    pure (started_report (child_state pid host port command) fallback)
  after_spawn (raised (os_error kind errno message)) child command fallback =
      pure (spawn_failure kind errno message fallback)
  after_spawn (raised e) child command fallback = lift (raised e)

  unfoldable pub launch : Fields → Json → Action Json
  launch child fallback = do
    ensure h.dirs
    stop_runtime
    command ← lift (lan_proxy_command child)
    process ← spawn_process command
    after_spawn process child command fallback

  unfoldable pub launch_child : Option Fields → Json → Action Json
  launch_child none fallback = pure (
      blocked "lanProxy listener is required before v2 child services start"
        (field "fallback" fallback end))
  launch_child (some child) fallback = launch child fallback

  unfoldable pub start_runtime : Fields → Bool → Bool → Action Json
  start_runtime plan dry_run allow_child =
      let fallback = get_or "fallback" (obj []) plan in
      if not (truthy (get_or "ok" (bool false) plan))
      then pure (
          blocked "runtime launch blocked by invalid plan"
            (field "errors" (get_or "errors" (arr []) plan) end))
      else if dry_run
      then pure (
          obj (
            ("ok", bool true)
            ∷ ("state", str "planned")
            ∷ ("summary", str "dry-run runtime launch completed without starting child services")
            ∷ ("children", get_or "children" (arr []) plan)
            ∷ []))
      else if not allow_child
      then pure (blocked "explicit child start flag is required" (field "fallback" fallback end))
      else if not (truthy (get "profileLoaded" plan))
      then pure (
          blocked "encrypted profile must be loaded before v2 child services start"
            (field "fallback" fallback end))
      else lift (child_by_id (get_or "children" (arr []) plan) "lanProxy") >>= λ child.
          launch_child child fallback
