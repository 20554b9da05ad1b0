-- ===== src/SplitProxy/Request.antt =====
-- Reading a request, as runtime/proxy-stack/iphone_lan_split_proxy.py does.
pub mod Header
use proxy_gateway_console_pu.Prelude.{
  refl, ◌≡◌, pos, str_length, lstrip, ltb, is_space, read_digits, ◌==◌, strip, isdigit, starts_with,
  split_last, none, if◌then◌else◌, words, read_int, before, some, str_contains, ℕ, Option, after,
  split_lines, ℤ, String, List, [], ◌∷◌, Bool, true, false, ◌<>◌,
}
use proxy_gateway_console_pu.SessionStore.Redact.{drop_str}
use proxy_gateway_console_pu.Outcome.{Outcome, ok, raised, value_error}

abbrev pub crlf2 : String
crlf2 = "\r\n\r\n"

abbrev pub has_end : String → Bool
has_end data_read = str_contains data_read crlf2

-- What the calls of `recv` give, one after the other: a chunk, or what the call raises. An empty chunk is
-- the end of the stream; after the last one `recv` gives the empty chunk.
abbrev pub Reads : Type 0
Reads = List (Outcome String)

-- The loop of `recv_headers`: the headers, and the reads that are left.
unfoldable pub recv_loop : ℕ → String → Reads → Outcome (String × Reads)
recv_loop limit got [] = ok (got, [])
recv_loop limit got (raised e ∷ chunks) =
    if has_end got then ok (got, raised e ∷ chunks) else raised e
recv_loop limit got (ok chunk ∷ chunks) =
    let longer = got <> chunk in
    let rest = recv_loop limit longer chunks in
    if has_end got
    then ok (got, ok chunk ∷ chunks)
    else if chunk == ""
    then ok (got, chunks)
    else if ltb limit (str_length longer)
    then raised (value_error "request header too large")
    else rest

-- HEADER_LIMIT
abbrev pub header_limit : ℕ
header_limit = 65536

unfoldable pub recv_headers : Reads → Outcome (String × Reads)
recv_headers chunks = recv_loop header_limit "" chunks

-- name.strip(), value.lstrip() of a line with a colon
abbrev pub header_of : String → Option String → List (String × String) → List (String × String)
header_of line none rest = rest
header_of line (some value) rest = (strip is_space (before b':' line), lstrip is_space value) ∷ rest

unfoldable pub header_lines : List String → List (String × String)
header_lines [] = []
header_lines (line ∷ lines) = header_of line (after b':' line) (header_lines lines)

-- text.split("\r\n") is never empty.
abbrev pub parsed_lines : List String → String × List (String × String)
parsed_lines [] = ("", [])
parsed_lines (line ∷ lines) = (line, header_lines lines)

unfoldable pub parse_headers : String → String × List (String × String)
parse_headers raw = parsed_lines (split_lines raw)

abbrev pub status_of : List String → ℕ
status_of (a ∷ b ∷ rest) =
    if isdigit b then elim (read_digits 0 false b) [ some n ↦ n | none ↦ 0 ] else 0
status_of parts = 0

abbrev pub first_or_empty : List String → String
first_or_empty [] = ""
first_or_empty (x ∷ xs) = x

unfoldable pub proxy_status : String → ℕ
proxy_status response = status_of (words (first_or_empty (split_lines response)))

abbrev pub int_or_raise : String → Outcome ℤ
int_or_raise text = elim (read_int text) [
  | some z ↦ ok z
  | none ↦ raised (value_error ("invalid literal for int() with base 10: '" <> text <> "'"))
]

abbrev pub with_port : String → Outcome ℤ → Outcome (String × ℤ)
with_port host (ok port) = ok (host, port)
with_port host (raised e) = raised e

-- "[host]:port", by what follows the bracket
abbrev pub after_bracket : String → Option String → ℤ → Outcome (String × ℤ)
after_bracket host none default_port = ok (host, default_port)
after_bracket host (some rest) default_port =
    if starts_with rest ":"
    then with_port host (int_or_raise (drop_str 1 rest))
    else ok (host, default_port)

abbrev pub last_colon : String → Option (String × String) → ℤ → Outcome (String × ℤ)
last_colon value none default_port = ok (value, default_port)
last_colon value (some (host, port)) default_port = with_port host (int_or_raise port)

unfoldable pub parse_host_port : String → ℤ → Outcome (String × ℤ)
parse_host_port value default_port =
    if starts_with value "["
    then after_bracket (before b']' (drop_str 1 value)) (after b']' (drop_str 1 value)) default_port
    else last_colon value (split_last b':' value) default_port

request_examples :
    (parse_host_port "[::1]:8443" (pos 443) ≡ ok ("::1", pos 8443))
    × (parse_host_port "example.org:80" (pos 443) ≡ ok ("example.org", pos 80))
    × (parse_host_port "example.org" (pos 443) ≡ ok ("example.org", pos 443))
    × (proxy_status "HTTP/1.1 200 OK\r\nX: y" ≡ 200)
    × (parse_headers "GET / HTTP/1.1\r\nHost: a\r\nbad\r\n"
        ≡ ("GET / HTTP/1.1", ("Host", "a") ∷ []))
    × (recv_headers (ok "a\r\n" ∷ ok "\r\nb" ∷ ok "c" ∷ []) ≡ ok ("a\r\n\r\nb", ok "c" ∷ []))
unfolding parse_host_port drop_str before after split_last read_int read_digits proxy_status words
    split_lines isdigit parse_headers header_lines strip lstrip recv_headers recv_loop str_length
request_examples = (refl, refl, refl, refl, refl, refl)
