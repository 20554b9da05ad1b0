-- ===== src/SessionStore.antt =====
-- agent/session_store.py: `SessionStore` over an explicit file system. A method is an action: it takes
-- the store and the files, and returns or raises, with the state that it leaves.
pub mod Redact
pub mod Texts
pub mod Keeps
pub mod Returns
pub mod Log
use proxy_gateway_console_pu.Prelude.{
  pos, false, ◌||◌, ◌∷◌, not, ℤ, ◌&&◌, none, [], ◌++◌, List, ◌==◌, ◌<>◌, some, is_some,
  if◌then◌else◌, String, Option, Bool,
}
use proxy_gateway_console_pu.Outcome.{attribute_error, os_error, raised, Outcome, ok, Exception}
use proxy_gateway_console_pu.Json.{
  truthy, end, nat, get, str, eq_ℕ, field, null, Fields, bool, dict, merge, obj, Json,
}
use proxy_gateway_console_pu.SessionStore.Redact.{redact_payload}

-- A path is a directory and a name.
pub record FilePath : Type 0 where
  pub dir : String
  pub name : String

-- What a file holds: JSON, a text that is no JSON, or the lines of the event log.
pub data File : Type 0 where
  json : Json → File
  not_json : File
  lines : List Json → File

-- The files, and the calls that the code makes of the operating system: the pids that it signals
-- and the commands that it starts.
pub record World : Type 0 where
  pub files : FilePath → Option File
  pub signalled : List ℤ
  pub spawned : List (List String)

-- The store's one attribute, beside the world that it writes to.
pub record Store : Type 0 where
  pub runtime_dir : String
  pub world : World
  pub open world use *

abbrev pub Action : Type 0 → Type 0
Action A = Store → Outcome A × Store

abbrev pub continue : {A B : Type 0} → Outcome A → (A → Action B) → Action B
continue (ok a) f s = f a s
continue (raised e) f s = (raised e, s)

infixl 5 ◌>>=◌
infixr 5 ◌>>◌
abbrev pub ◌>>=◌ : {A B : Type 0} → Action A → (A → Action B) → Action B
◌>>=◌ m f s = continue (m s).0 f (m s).1

abbrev pub ◌>>◌ : {A B : Type 0} → Action A → Action B → Action B
m >> n = m >>= λ _. n

abbrev pub pure : {A : Type 0} → A → Action A
pure a s = (ok a, s)

abbrev pub lift : {A : Type 0} → Outcome A → Action A
lift r s = (r, s)

abbrev pub same_path : FilePath → FilePath → Bool
same_path p q = p.name == q.name && p.dir == q.dir

unfoldable pub set_file : FilePath → Option File → World → World
set_file p f w = record w { files = λ q. if same_path p q then f else w.files q }

abbrev pub set_world : (World → World) → Store → Store
set_world f s = record s { world = f s.world }

-- SESSION_FILE, TOKEN_FILE, EVENT_LOG_FILE and the directory `state`
abbrev pub session_path : Store → FilePath
session_path s = record { dir = s.runtime_dir; name = "session.json" }

abbrev pub token_path : Store → FilePath
token_path s = record { dir = s.runtime_dir; name = "unlock-token.json" }

abbrev pub events_path : Store → FilePath
events_path s = record { dir = s.runtime_dir; name = "events.jsonl" }

abbrev pub state_dir : Store → String
state_dir s = s.runtime_dir <> "/state"

-- What the operating system says of directories: which can be created and written to, and the two
-- that the code tries.
pub record Dirs : Type 0 where
  pub default_dir : String
  pub fallback_dir : String
  pub is_usable : String → Bool

-- SessionStore()
unfoldable pub new_store : Dirs → World → Store
new_store d w = record { runtime_dir = d.default_dir; world = w }

abbrev pub os_failure : Exception
os_failure = os_error "PermissionError" (some (pos 13)) "runtime directory is not writable"

-- `None`, which is `null` here, for a file that is missing or holds no JSON
abbrev pub content : Option File → Json
content (some (json v)) = v
content _ = null

abbrev pub log_lines : Option File → List Json
log_lines (some (lines ls)) = ls
log_lines _ = []

module _ (d : Dirs) where
  -- `_create_private_dirs`, with the write test at its end
  unfoldable pub create_private_dirs : Action (Unit {0})
  create_private_dirs s = if d.is_usable s.runtime_dir then (ok tt, s) else (raised os_failure, s)

  unfoldable pub ensure : Action (Unit {0})
  ensure s =
      if d.is_usable s.runtime_dir
      then (ok tt, s)
      else if s.runtime_dir == d.fallback_dir
      then (raised os_failure, s)
      else create_private_dirs (record s { runtime_dir = d.fallback_dir })

  -- `_write_json_to_path`: a temporary file is moved over the path
  unfoldable pub write_json_to_path : (Store → FilePath) → Json → Action (Unit {0})
  write_json_to_path path payload s = (ok tt, set_world (set_file (path s) (some (json payload))) s)

  -- `_resolve_managed_path`
  unfoldable pub resolve_managed_path : FilePath → Store → FilePath
  resolve_managed_path p s =
      if p.name == "session.json"
      then session_path s
      else if p.name == "unlock-token.json"
      then token_path s
      else p

  unfoldable pub write_json : FilePath → Json → Action (Unit {0})
  write_json path payload = do ensure; write_json_to_path (resolve_managed_path path) payload

  unfoldable pub read_json : (Store → FilePath) → Action Json
  read_json path s = (ok (content (s.files (path s))), s)

  -- `_unlink`: whether there was a file
  unfoldable pub unlink : (Store → FilePath) → Action Bool
  unlink path s = (ok (is_some (s.files (path s))), set_world (set_file (path s) none) s)

  unfoldable pub write_session : Json → Action (Unit {0})
  write_session payload = do ensure; write_json_to_path session_path payload

  unfoldable pub read_session : Action Json
  read_session = do ensure; read_json session_path

  unfoldable pub remove_session : Action Bool
  remove_session = do ensure; unlink session_path

  unfoldable pub write_token : Json → Action (Unit {0})
  write_token payload = do ensure; write_json_to_path token_path payload

  unfoldable pub read_token : Action Json
  read_token = do ensure; read_json token_path

  unfoldable pub remove_token : Action Bool
  remove_token = do ensure; unlink token_path

  unfoldable pub append_line : Json → Action (Unit {0})
  append_line line s = (
    ok tt,
    set_world
        (set_file (events_path s) (some (lines (log_lines (s.files (events_path s)) ++ line ∷ []))))
        s,
  )

  unfoldable pub write_event : Fields → Action (Unit {0})
  write_event event = do
    ensure
    append_line (redact_payload (dict (merge (field "level" (str "normal") end) event)))

  abbrev pub cleanup_report : Bool → String → Json
  cleanup_report removed reason =
      obj (("removed", bool removed) ∷ ("reason", str reason) ∷ ("killedProcesses", nat 0) ∷ [])

  -- the part of `cleanup_stale_session` that depends on what was read
  unfoldable pub cleanup_payload : Json → Action Json
  cleanup_payload null = do
    removed ← unlink session_path
    pure (cleanup_report removed (if removed then "invalid-json" else "absent"))
  cleanup_payload (dict fs) =
      if not (eq_ℕ 2 (get "version" fs)) || not (truthy (get "sessionId" fs))
      then (do removed ← remove_session; pure (cleanup_report removed "invalid-manifest"))
      else pure (cleanup_report false "valid")
  cleanup_payload _ = lift (raised attribute_error)

  unfoldable pub cleanup_stale_session : Action Json
  cleanup_stale_session = do payload ← read_session; cleanup_payload payload
