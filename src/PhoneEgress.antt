-- ===== src/PhoneEgress.antt =====
-- The explicit proxy of runtime/proxy-stack/phone_egress_http_proxy.py, whose connections start at the
-- address of the phone.
pub mod Bound
use proxy_gateway_console_pu.Prelude.{
  ◌||◌, ◌==◌, ◌<>◌, ◌&&◌, not, starts_with, str_contains, Bool, true, false, if◌then◌else◌, some,
  none, Option, lower, words, pos, show_ℕ, strip, is_space, before, after, split_last, isdigit,
  split_lines, refl, ◌≡◌, ◌++◌, [], ◌∷◌, List, String, ℤ, ℕ, ◌=?◌,
}
use proxy_gateway_console_pu.SessionStore.Redact.{drop_str}
use proxy_gateway_console_pu.Outcome.{Outcome, ok, raised, Exception, os_error, value_error}
use proxy_gateway_console_pu.Relay.{
  ◌>>=◌, ◌>>◌, Io, Conn, Effect, new_socket, bind_source, connect_to, to_client, to_remote,
  close_remote, routed, perform, note, lift, return_io, except, with_remote, if_os_error,
  is_os_error, tunnel, Round,
}
use proxy_gateway_console_pu.SplitProxy.Request.{
  recv_headers, int_or_raise, with_port, first_or_empty,
}
use proxy_gateway_console_pu.SplitProxy.Handler.{Url}

pub data Family : Type 0 where
  inet inet6 other_family : Family

-- The class attributes, and what the sockets and the libraries answer to one connection.
pub record World : Type 0 where
  pub source_ip : String
  -- ipaddress.ip_address(source_ip).version
  pub source_version : Outcome ℕ
  pub getaddrinfo : String → ℤ → Outcome (List (Family × String))
  pub answer : List Effect → Effect → Outcome (Unit {0})
  pub client_chunks : List (Outcome String)
  pub rounds : List Round
  pub urlsplit : String → Outcome Url
  pub utf8_length : String → ℕ
  pub to_ascii : String → String
  pub str_of : Exception → String

abbrev pub host_of_line : Option String → String
host_of_line none = ""
host_of_line (some value) = strip is_space value

unfoldable pub host_lines : List String → String
host_lines [] = ""
host_lines (line ∷ lines) =
    let later = host_lines lines in
    if starts_with (lower line) "host:" then host_of_line (after b':' line) else later

abbrev pub rest_of : List String → List String
rest_of [] = []
rest_of (x ∷ xs) = xs

-- The first line of raw.split(b"\r\n") is not looked at.
unfoldable pub host_header : String → String
host_header raw = host_lines (rest_of (split_lines raw))

-- "[host]tail", by the text after "["
unfoldable pub bracketed : String → String → Option String → ℤ → Outcome (String × ℤ)
bracketed value host none default_port = ok (host, default_port)
bracketed value host (some tail) default_port =
    if starts_with tail ":"
    then with_port host (int_or_raise (drop_str 1 tail))
    else ok (host, default_port)

unfoldable pub colon_port : String → Option (String × String) → ℤ → Outcome (String × ℤ)
colon_port value none default_port = ok (value, default_port)
colon_port value (some (host, port_text)) default_port =
    if isdigit port_text then with_port host (int_or_raise port_text) else ok (value, default_port)

unfoldable pub split_host_port : String → ℤ → Outcome (String × ℤ)
split_host_port value default_port =
    if starts_with value "[" && str_contains value "]"
    then bracketed value (before b']' (drop_str 1 value)) (after b']' (drop_str 1 value))
        default_port
    else colon_port value (split_last b':' value) default_port

abbrev pub or_else : String → String → String
or_else a b = if a == "" then b else a

abbrev pub version_fits : Family → ℕ → Bool
version_fits inet version = version =? 4
version_fits inet6 version = version =? 6
version_fits other_family version = false

module _ (w : World) where
  abbrev pub Act : Type 0 → Type 0
  Act A = Io (Unit {0}) A

  abbrev pub do_it : Effect → Act (Unit {0})
  do_it = perform w.answer

  abbrev if_fits : Bool → Option String
  if_fits true = some w.source_ip
  if_fits false = none

  -- The host of the address to bind: its ports and scopes are 0.
  unfoldable pub bind_address_for_source : Family → Outcome (Option String)
  bind_address_for_source family = elim w.source_version [
    | ok version ↦ ok (if_fits (version_fits family version))
    | raised e ↦ raised e
  ]

  unfoldable pub joined : List String → String
  joined [] = ""
  joined (x ∷ []) = x
  joined (x ∷ y ∷ rest) = x <> "; " <> joined (y ∷ rest)

  -- One address of the loop of `open_remote`, where the source may be bound, and the rest of the loop.
  unfoldable pub connect_from :
      Option String → String → (List String → Act (Unit {0})) → List String → Act (Unit {0})
  connect_from none address next errors = next errors
  connect_from (some source) address next errors =
      do_it new_socket
      >> except (do_it (bind_source source) >> do_it (connect_to address)) (λ e.
        if is_os_error e
        then note close_remote >> next (errors ++ w.str_of e ∷ [])
        else lift (raised e))

  unfoldable pub try_addresses : List (Family × String) → List String → Act (Unit {0})
  try_addresses [] errors =
      lift (raised (os_error "OSError" none (or_else (joined errors) "connect failed")))
  try_addresses ((family, address) ∷ rest) errors =
      lift (bind_address_for_source family) >>= λ bound.
      connect_from bound address (try_addresses rest) errors

  unfoldable pub open_remote : String → ℤ → Act (Unit {0})
  open_remote host port = lift (w.getaddrinfo host port) >>= λ addresses. try_addresses addresses []

  unfoldable pub fail : String → Act (Unit {0})
  fail message =
      let body = "phone egress proxy: " <> message <> "\n" in
      do_it (
        to_client (
          "HTTP/1.1 502 Bad Gateway\r\n"
          <> "Connection: close\r\n"
          <> "Content-Type: text/plain; charset=utf-8\r\n"
          <> "Content-Length: "
          <> show_ℕ (w.utf8_length body)
          <> "\r\n\r\n"
          <> body))

  -- `origin_request`, of a target that `urlsplit` read, with the first line of the request and the rest
  unfoldable pub with_path : List String → String → Url → String → String
  with_path (a ∷ b ∷ c ∷ []) raw url rest =
      let path = or_else url.path "/" in
      a
      <> " "
      <> w.to_ascii (if url.query == "" then path else path <> "?" <> url.query)
      <> " "
      <> c
      <> "\r\n"
      <> rest
  with_path parts raw url rest = raw

  unfoldable pub after_line : String → String
  after_line String.[] = ""
  after_line (String.◌∷◌ c rest) =
      let later = after_line rest in
      if starts_with (String.◌∷◌ c rest) "\r\n" then drop_str 2 (String.◌∷◌ c rest) else later

  unfoldable pub origin_request : String → Url → Outcome String
  origin_request raw url =
      if url.scheme == "" || url.netloc == ""
      then ok raw
      else if not (str_contains raw "\r\n")
      then raised (value_error "not enough values to unpack (expected 2, got 1)")
      else ok (with_path (words (first_or_empty (split_lines raw))) raw url (after_line raw))

  unfoldable pub handle_connect : String → Act (Unit {0})
  handle_connect target = lift (split_host_port target (pos 443)) >>= λ at.
      open_remote at.0 at.1
      >> with_remote (
          do_it (to_client "HTTP/1.1 200 Connection Established\r\n\r\n")
          >> tunnel w.answer w.rounds)

  unfoldable pub forward_to : String × ℤ → String → Act (Unit {0})
  forward_to (host, port) outbound =
      if host == ""
      then fail "missing host"
      else open_remote host port
        >> with_remote (do_it (to_remote outbound) >> tunnel w.answer w.rounds)

  unfoldable pub handle_forward : String → String → String → Act (Unit {0})
  handle_forward raw method target = lift (w.urlsplit target) >>= λ url.
      if not (url.scheme == "") && not (url.netloc == "")
      then (lift (split_host_port url.netloc (if url.scheme == "https" then pos 443 else pos 80))
          >>= λ at. lift (origin_request raw url) >>= λ outbound. forward_to at outbound)
      else lift (split_host_port (host_header raw) (pos 80)) >>= λ at. forward_to at raw

  abbrev pub with_parts : List String → String → Act (Unit {0})
  with_parts (method ∷ target ∷ version ∷ more) raw =
      if lower method == "connect" then handle_connect target else handle_forward raw method target
  with_parts parts raw = fail "bad request line"

  unfoldable pub serve : Act (Unit {0})
  serve = lift (recv_headers w.client_chunks) >>= λ r.
      if r.0 == "" then return_io tt else with_parts (words (first_or_empty (split_lines r.0))) r.0

  unfoldable pub handle : Act (Unit {0})
  handle = except serve (λ error. except (fail (w.str_of error)) (if_os_error tt))
