-- ===== src/SessionStore/Log.antt =====
-- The event log under the methods of agent/session_store.py.
use proxy_gateway_console_pu.Json.{null, dict, Fields, Json}
use proxy_gateway_console_pu.SessionStore.{
  events_path, write_json_to_path, read_json, append_line, write_session, write_token, read_session,
  read_token, remove_session, remove_token, cleanup_payload, cleanup_stale_session, same_path,
  Store, lines, write_json, unlink, write_event, log_lines, json, FilePath, set_file, World, Dirs,
}
use proxy_gateway_console_pu.SessionStore.Texts.{redact_payload-IsLogLine, IsLogLine}
use proxy_gateway_console_pu.SessionStore.Keeps.{keeps_rules, Keeps}
use proxy_gateway_console_pu.Prelude.{
  All-append, inr, inl, Bool-cases, [], ◌∷◌, ◌++◌, some, arith, All, none,
}

-- Every line of every log has its secrets and its texts redacted.
pub record LogsRedacted (w : World) : Type 0 where
  pub at_path : (p : FilePath) → All IsLogLine (log_lines (w.files p))

set_json-LogsRedacted :
    (p : FilePath) (v : Json) (w : World)
    → LogsRedacted w
    → LogsRedacted (set_file p (some (json v)) w)
unfolding set_file
set_json-LogsRedacted p v w h = record { at_path = λ q. ground (arith, h.at_path q) }

set_none-LogsRedacted :
    (p : FilePath) (w : World) → LogsRedacted w → LogsRedacted (set_file p none w)
unfolding set_file
set_none-LogsRedacted p w h = record { at_path = λ q. ground (arith, h.at_path q) }

append-LogsRedacted :
    (p : FilePath) (v : Json) (w : World)
    → IsLogLine v
    → LogsRedacted w
    → LogsRedacted (set_file p (some (lines (log_lines (w.files p) ++ v ∷ []))) w)
unfolding set_file
append-LogsRedacted p v w r h = record {
  at_path = λ q. at q (All-append IsLogLine (log_lines (w.files p)) (v ∷ []) (h.at_path p) (r, tt));
}
  where
    at :
        (q : FilePath)
        → All IsLogLine (log_lines (w.files p) ++ v ∷ [])
        → All IsLogLine
            (log_lines ((set_file p (some (lines (log_lines (w.files p) ++ v ∷ []))) w).files q))
    at q new = elim (Bool-cases (same_path p q)) [
      | inl yes_here ↦ rw yes_here new
      | inr elsewhere ↦ rw elsewhere (h.at_path q)
    ]

module _ (d : Dirs) where
  write_json_to_path-LogsRedacted :
      (p : Store → FilePath) (v : Json) → Keeps LogsRedacted (write_json_to_path d p v)
  unfolding write_json_to_path
  write_json_to_path-LogsRedacted p v = record {
    at = λ s h. set_json-LogsRedacted (p s) v s.world h;
  }

  pub write_json-LogsRedacted : (p : FilePath) (v : Json) → Keeps LogsRedacted (write_json d p v)
  unfolding write_json
  write_json-LogsRedacted p v = search (keeps_rules, write_json_to_path-LogsRedacted)

  pub unlink-LogsRedacted : (p : Store → FilePath) → Keeps LogsRedacted (unlink d p)
  unfolding unlink
  unlink-LogsRedacted p = record { at = λ s h. set_none-LogsRedacted (p s) s.world h }

  pub read_json-LogsRedacted : (p : Store → FilePath) → Keeps LogsRedacted (read_json d p)
  unfolding read_json
  read_json-LogsRedacted p = record { at = λ s h. h }

  append_line-LogsRedacted : (v : Json) → IsLogLine v → Keeps LogsRedacted (append_line d v)
  unfolding append_line
  append_line-LogsRedacted v r = record {
    at = λ s h. append-LogsRedacted (events_path s) v s.world r h;
  }

  ruleset steps = (
    keeps_rules, write_json_to_path-LogsRedacted, unlink-LogsRedacted, read_json-LogsRedacted,
    append_line-LogsRedacted, redact_payload-IsLogLine,
  )

  pub write_event-LogsRedacted : (event : Fields) → Keeps LogsRedacted (write_event d event)
  unfolding write_event
  write_event-LogsRedacted event = search steps

  pub write_session-LogsRedacted : (v : Json) → Keeps LogsRedacted (write_session d v)
  unfolding write_session
  write_session-LogsRedacted v = search steps

  pub write_token-LogsRedacted : (v : Json) → Keeps LogsRedacted (write_token d v)
  unfolding write_token
  write_token-LogsRedacted v = search steps

  pub read_session-LogsRedacted : Keeps LogsRedacted (read_session d)
  unfolding read_session
  read_session-LogsRedacted = search steps

  pub read_token-LogsRedacted : Keeps LogsRedacted (read_token d)
  unfolding read_token
  read_token-LogsRedacted = search steps

  pub remove_session-LogsRedacted : Keeps LogsRedacted (remove_session d)
  unfolding remove_session
  remove_session-LogsRedacted = search steps

  pub remove_token-LogsRedacted : Keeps LogsRedacted (remove_token d)
  unfolding remove_token
  remove_token-LogsRedacted = search steps

  cleanup_payload-LogsRedacted : (v : Json) → Keeps LogsRedacted (cleanup_payload d v)
  unfolding cleanup_payload
  cleanup_payload-LogsRedacted null = search steps
  cleanup_payload-LogsRedacted (dict fs) = search (steps, remove_session-LogsRedacted)
  cleanup_payload-LogsRedacted v = search steps

  pub cleanup_stale_session-LogsRedacted : Keeps LogsRedacted (cleanup_stale_session d)
  unfolding cleanup_stale_session
  cleanup_stale_session-LogsRedacted =
      search (keeps_rules, read_session-LogsRedacted, cleanup_payload-LogsRedacted)

pub ruleset log_rules = (
  keeps_rules, write_json-LogsRedacted, unlink-LogsRedacted, read_json-LogsRedacted,
  write_event-LogsRedacted, write_session-LogsRedacted, write_token-LogsRedacted,
  read_session-LogsRedacted, read_token-LogsRedacted, remove_session-LogsRedacted,
  remove_token-LogsRedacted, cleanup_stale_session-LogsRedacted,
)
