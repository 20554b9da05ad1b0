-- ===== src/SplitProxy/Handler.antt =====
-- The handler `SplitHttpProxy` of runtime/proxy-stack/iphone_lan_split_proxy.py.
pub mod Dials
pub mod Once
pub mod Forwarded
use proxy_gateway_console_pu.Prelude.{
  ◌=?◌, ◌==◌, ◌<>◌, starts_with, not, any, Bool, true, false, if◌then◌else◌, some, none, Option,
  select, lower, words, pos, show_ℕ, show_ℤ, refl, ◌≡◌, ◌&&◌, ◌++◌, [], ◌∷◌, List, String, ℤ, ℕ,
}
use proxy_gateway_console_pu.SessionStore.Redact.{drop_str}
use proxy_gateway_console_pu.Outcome.{Outcome, ok, raised, Exception, os_error}
use proxy_gateway_console_pu.Relay.{
  ◌>>=◌, ◌>>◌, Io, Conn, Effect, dial_direct, dial_upstream, to_client, to_remote, close_remote,
  routed, perform, note, lift, return_io, except, with_remote, if_os_error, tunnel, Round,
}
use proxy_gateway_console_pu.SplitProxy.Address.{Addresses, Net, Network}
use proxy_gateway_console_pu.SplitProxy.Route.{Decision}
use proxy_gateway_console_pu.SplitProxy.Cache.{Entries, route as cached_route}
use proxy_gateway_console_pu.SplitProxy.Request.{
  crlf2, recv_headers, parse_headers, proxy_status, parse_host_port,
}

-- What `urlsplit` answers.
pub record Url : Type 0 where
  pub scheme : String
  pub netloc : String
  pub path : String
  pub query : String

-- The class attributes, and what the sockets, the clock and the libraries answer to one connection.
pub record World : Type 0 where
  pub allow_nets : List Network
  pub peer_in : Network → Bool
  pub cn_networks : List Net
  pub force_direct : List String
  pub force_proxy : List String
  pub now : ℕ
  pub resolver : String → Outcome (List String)
  pub addresses : Addresses
  pub answer : List Effect → Effect → Outcome (Unit {0})
  pub client_chunks : List (Outcome String)
  pub upstream_chunks : List (Outcome String)
  pub remote_reads : List (Outcome String)
  pub rounds : List Round
  pub urlsplit : String → Outcome Url
  pub utf8_length : String → ℕ
  pub str_of : Exception → String

-- HOP_BY_HOP
unfoldable pub is_hop_by_hop : String → Bool
is_hop_by_hop name =
    any (λ h. h == lower name)
      ("connection" ∷ "keep-alive" ∷ "proxy-authenticate" ∷ "proxy-authorization"
        ∷ "proxy-connection" ∷ "te" ∷ "trailer" ∷ "transfer-encoding" ∷ "upgrade" ∷ [])

-- The list comprehension of `handle_http` and the `append` after it.
unfoldable pub outbound_headers : List (String × String) → List (String × String)
outbound_headers headers =
    select (λ h. not (is_hop_by_hop h.0)) headers ++ ("Connection", "close") ∷ []

unfoldable pub header_text : List (String × String) → String
header_text [] = ""
header_text ((key, value) ∷ rest) = key <> ": " <> value <> "\r\n" <> header_text rest

-- next((v for k, v in headers if k.lower() == "host"), "")
unfoldable pub host_header : List (String × String) → String
host_header [] = ""
host_header ((key, value) ∷ rest) = if lower key == "host" then value else host_header rest

-- raw.partition(b"\r\n\r\n"): what is before and what is after
unfoldable pub partition : String → String × String
partition String.[] = ("", "")
partition (String.◌∷◌ c rest) =
    let (head, body) = partition rest in
    if starts_with (String.◌∷◌ c rest) crlf2
    then ("", drop_str 4 (String.◌∷◌ c rest))
    else (String.◌∷◌ c head, body)

abbrev pub at_port : Outcome (String × ℤ) → String → Outcome ((String × ℤ) × String)
at_port (ok at) path = ok (at, path)
at_port (raised e) path = raised e

abbrev pub or_else : String → String → String
or_else a b = if a == "" then b else a

module _ (w : World) where
  abbrev pub Act : Type 0 → Type 0
  Act A = Io Entries A

  abbrev pub do_it : Effect → Act (Unit {0})
  do_it = perform w.answer

  unfoldable pub allowed : Bool
  allowed = any w.peer_in w.allow_nets

  -- `route`, on the cache that the threads share
  unfoldable pub route : String → Act Decision
  route host s =
      let (r, entries) =
        cached_route w.addresses w.cn_networks w.force_direct w.force_proxy w.now w.resolver host
          s.memory in
      (r, record s { memory = entries })

  unfoldable pub fail_text : ℕ → String → String
  fail_text code message =
      let body = "iphone lan proxy: " <> message <> "\n" in
      "HTTP/1.1 "
      <> show_ℕ code
      <> " Bad Gateway\r\n"
      <> "Connection: close\r\n"
      <> "Content-Type: text/plain; charset=utf-8\r\n"
      <> "Content-Length: "
      <> show_ℕ (w.utf8_length body)
      <> "\r\n\r\n"
      <> body

  unfoldable pub fail : ℕ → String → Act (Unit {0})
  fail code message = do_it (to_client (fail_text code message))

  -- After the answer of the upstream to a CONNECT.
  unfoldable pub answered : String → String → ℤ → String → Act (Unit {0})
  answered response host port mode =
      let code = proxy_status response in
      if code =? 200
      then do_it (to_client response)
        >> note (routed "CONNECT" (host <> ":" <> show_ℤ port) mode)
        >> with_remote (tunnel w.answer w.rounds)
      else note close_remote
        >> lift (raised (os_error "OSError" none ("upstream CONNECT returned " <> show_ℕ code)))

  unfoldable pub connect_by : Decision → String → String → ℤ → Act (Unit {0})
  connect_by decision raw host port =
      if decision.mode == "direct"
      then do_it (dial_direct host port)
        >> do_it (to_client "HTTP/1.1 200 Connection Established\r\n\r\n")
        >> note (routed "CONNECT" (host <> ":" <> show_ℤ port) decision.mode)
        >> with_remote (tunnel w.answer w.rounds)
      else do_it dial_upstream
        >> do_it (to_remote raw)
        >> (lift (recv_headers w.upstream_chunks) >>= λ r. answered r.0 host port decision.mode)

  unfoldable pub handle_connect : String → String → Act (Unit {0})
  handle_connect raw target = do
    (host, port) ← lift (parse_host_port target (pos 443))
    decision ← route host
    connect_by decision raw host port

  -- The loop that passes the answer of the remote on.
  unfoldable pub pass_on : List (Outcome String) → Act (Unit {0})
  pass_on [] = return_io tt
  pass_on (raised e ∷ reads) = lift (raised e)
  pass_on (ok chunk ∷ reads) =
      let rest = pass_on reads in
      if chunk == "" then return_io tt else do_it (to_client chunk) >> rest

  unfoldable pub head_text : String → String → String → List (String × String) → String
  head_text method path version headers =
      method
      <> " "
      <> path
      <> " "
      <> version
      <> "\r\n"
      <> header_text (outbound_headers headers)
      <> "\r\n"

  unfoldable pub http_by :
      Decision
      → String
      → String
      → String
      → String
      → List (String × String)
      → String
      → String
      → ℤ
      → String
      → Act (Unit {0})
  http_by decision raw method target version headers body host port path =
      if decision.mode == "proxy"
      then do_it dial_upstream
        >> do_it (to_remote raw)
        >> note (routed method target decision.mode)
        >> with_remote (tunnel w.answer w.rounds)
      else do_it (dial_direct host port)
        >> note (routed method (host <> ":" <> show_ℤ port <> path) decision.mode)
        >> with_remote (
            do_it (to_remote (head_text method path version headers <> body))
            >> pass_on w.remote_reads)

  -- The host, the port and the path of an absolute target.
  unfoldable pub of_url : Url → Outcome ((String × ℤ) × String)
  of_url url =
      at_port (parse_host_port url.netloc (if url.scheme == "https" then pos 443 else pos 80)) (
        let path = or_else url.path "/" in
        if url.query == "" then path else path <> "?" <> url.query)

  unfoldable pub handle_http :
      String → String → String → String → List (String × String) → String → Act (Unit {0})
  handle_http raw method target version headers body = lift (w.urlsplit target) >>= λ url.
      let go = λ (p : (String × ℤ) × String). route p.0.0 >>= λ decision.
      http_by decision raw method target version headers body p.0.0 p.0.1 p.1 in
      if not (url.scheme == "") && not (url.netloc == "")
      then lift (of_url url) >>= go
      else if host_header headers == ""
      then do_it (to_client "HTTP/1.1 400 Bad Request\r\nConnection: close\r\n\r\n")
      else lift (at_port (parse_host_port (host_header headers) (pos 80)) (or_else target "/"))
        >>= go

  abbrev pub with_parts : List String → String → List (String × String) → String → Act (Unit {0})
  with_parts (method ∷ target ∷ version ∷ []) raw headers body =
      if lower method == "connect"
      then handle_connect raw target
      else handle_http raw method target version headers body
  with_parts parts raw headers body =
      do_it (to_client "HTTP/1.1 400 Bad Request\r\nConnection: close\r\n\r\n")

  -- The block under `try` of `handle`.
  unfoldable pub serve : Act (Unit {0})
  serve = lift (recv_headers w.client_chunks) >>= λ r.
      let raw = r.0 in
      let (head, body) = partition raw in
      let (request_line, headers) = parse_headers head in
      if raw == "" then return_io tt else with_parts (words request_line) raw headers body

  unfoldable pub handle : Act (Unit {0})
  handle =
      if not allowed
      then do_it (to_client "HTTP/1.1 403 Forbidden\r\nConnection: close\r\n\r\n")
      else except serve (λ error. except (fail 502 (w.str_of error)) (if_os_error tt))
