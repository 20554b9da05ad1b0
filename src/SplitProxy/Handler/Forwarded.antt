-- ===== src/SplitProxy/Handler/Forwarded.antt =====
-- The headers of a direct request, as `SplitHttpProxy` of runtime/proxy-stack/iphone_lan_split_proxy.py
-- sends them.
use proxy_gateway_console_pu.Prelude.{
  show_ℤ, false, ℤ, sym, ◌<>◌, any, ◌==◌, Bool-cases, lower_char, lower, ◌≡◌, List, [], ◌∷◌, ◌++◌,
  String, refl, Bool, not, select, ◌∙◌, inl, inr, ap,
}
use proxy_gateway_console_pu.SplitProxy.Handler.{
  header_text, is_hop_by_hop, outbound_headers, World, http_by, pass_on, head_text,
}
use mathlib.Core.List.{append-nil, append_assoc as append_assoc_list}
use proxy_gateway_console_pu.SplitProxy.Route.{Decision}
use proxy_gateway_console_pu.SplitProxy.Cache.{Entries}
use proxy_gateway_console_pu.Outcome.{Outcome, ok, raised}
use proxy_gateway_console_pu.Relay.{
  Conn, Effect, dial_direct, routed, to_remote, close_remote, resume, with_remote, perform,
}
use proxy_gateway_console_pu.Relay.Keeps.{
  Keeps, Adds, keeps_calls, Keeps-if, Keeps-bind, Keeps-perform,
}
use text.Mathlib.TextLemmas.{append_assoc, nil-append}

abbrev pub Headers : Type 0
Headers = List (String × String)

-- The names of the headers that are for one hop only, in lower case.
abbrev hop_names : List String
hop_names =
    "connection" ∷ "keep-alive" ∷ "proxy-authenticate" ∷ "proxy-authorization" ∷ "proxy-connection"
    ∷ "te" ∷ "trailer" ∷ "transfer-encoding" ∷ "upgrade" ∷ []

abbrev for_this_hop : String × String → Bool
for_this_hop header = any (λ name. name == lower header.0) hop_names

abbrev pub hop_headers : Headers → Headers
hop_headers headers = select for_this_hop headers

abbrev pub other_headers : Headers → Headers
other_headers headers = select (λ h. not (for_this_hop h)) headers

select-rejected :
    {A : Type 0} (p : A → Bool) (xs ys : List A)
    → select p (select (λ x. not (p x)) xs ++ ys) ≡ select p ys
select-rejected p [] ys = refl
select-rejected p (x ∷ xs) ys =
    let rest = select-rejected p xs ys in
    elim (Bool-cases (p x)) [ inl h ↦ rw (select, h) rest | inr h ↦ rw (select, h, select, h) rest ]

select-again :
    {A : Type 0} (p : A → Bool) (xs ys : List A)
    → select p (select p xs ++ ys) ≡ select p xs ++ select p ys
select-again p [] ys = refl
select-again p (x ∷ xs) ys =
    let rest = select-again p xs ys in
    elim (Bool-cases (p x)) [
      | inl h ↦ rw (select, h, select, h) (ap (λ l. x ∷ l) rest)
      | inr h ↦ rw (select, h) rest
    ]

header_text-append : (xs ys : Headers) → header_text (xs ++ ys) ≡ header_text xs <> header_text ys
unfolding header_text
header_text-append [] ys = sym (nil-append (header_text ys))
header_text-append ((key, value) ∷ xs) ys =
    let rest = header_text-append xs ys in
    rw rest (
      sym (
        append_assoc key _ (header_text ys)
        ∙ ap (λ t. key <> t)
            (append_assoc ": " _ (header_text ys)
              ∙ ap (λ t. ": " <> t)
                  (append_assoc value _ (header_text ys)
                    ∙ ap (λ t. value <> t)
                        (append_assoc "\r\n" (header_text xs) (header_text ys))))))

-- The only header of the nine names is `Connection: close`, the other headers are those of the client, in
-- their order, and the text of the headers is theirs and then `Connection: close`.
abbrev pub IsOutbound : Headers → Headers → Type 0
IsOutbound headers sent =
    (hop_headers sent ≡ ("Connection", "close") ∷ [])
    × (other_headers sent ≡ other_headers headers)
    × (header_text sent ≡ header_text (other_headers headers) <> "Connection: close\r\n")

outbound_headers-IsOutbound : (headers : Headers) → IsOutbound headers (outbound_headers headers)
unfolding is_hop_by_hop lower lower_char outbound_headers header_text
outbound_headers-IsOutbound headers = (
  select-rejected for_this_hop headers (("Connection", "close") ∷ []),
  select-again (λ h. not (for_this_hop h)) headers (("Connection", "close") ∷ [])
      ∙ append-nil (other_headers headers),
  header_text-append (other_headers headers) (("Connection", "close") ∷ []),
)

-- The calls begin with those.
abbrev pub Starts : List Effect → List Effect → Type 0
Starts base effects = (rest : List Effect) × (effects ≡ base ++ rest)

adds : (base : List Effect) (e : Effect) → Adds (Starts base) e
adds base e effects (rest, q) =
    (rest ++ e ∷ [], ap (λ l. l ++ e ∷ []) q ∙ append_assoc_list base rest (e ∷ []))

-- The first line and the headers of the request that the remote gets.
abbrev pub direct_head : String → String → String → Headers → String
direct_head method path version sent =
    method <> " " <> path <> " " <> version <> "\r\n" <> header_text sent <> "\r\n"

module _ (w : World) where
  pass_on-Keeps :
      (base : List Effect) (reads : List (Outcome String)) → Keeps (Starts base) (pass_on w reads)
  unfolding pass_on
  pass_on-Keeps base [] = search keeps_calls
  pass_on-Keeps base (raised e ∷ reads) = search keeps_calls
  pass_on-Keeps base (ok chunk ∷ reads) =
      let rest = pass_on-Keeps base reads in
      Keeps-if (Starts base) (chunk == "") _ _ (search keeps_calls) (
        Keeps-bind (Starts base) _ _ (Keeps-perform (Starts base) w.answer _ (adds base _))
          (λ _. rest))

  answered :
      (base : List Effect) (o : Outcome (Unit {0})) (s : Conn Entries)
      → s.trace ≡ base
      → Starts base (resume o (λ _. pass_on w w.remote_reads) s).1.trace
  answered base (ok u) s e =
      (pass_on-Keeps base w.remote_reads).at s ([], e ∙ sym (append-nil base))
  answered base (raised x) s e = ([], e ∙ sym (append-nil base))

  -- A request whose route is not for the proxy, once the connection is open: the calls are that connection,
  -- the line of the log, and then the request with headers of which the only one of the nine hop-by-hop
  -- names is `Connection: close` and the others are those of the client, in their order, and its body.
  pub http_by-Starts :
      (decision : Decision) (raw method target version : String) (headers : Headers)
      (body host : String) (port : ℤ) (path : String) (s : Conn Entries)
      → (decision.mode == "proxy") ≡ false
      → w.answer s.trace (dial_direct host port) ≡ ok tt
      → (sent : Headers) × IsOutbound headers sent
        × Starts
            (((s.trace ++ dial_direct host port ∷ [])
                ++ routed method (host <> ":" <> show_ℤ port <> path) decision.mode ∷ [])
              ++ to_remote (direct_head method path version sent <> body) ∷ [])
            (http_by w decision raw method target version headers body host port path s).1.trace
  unfolding http_by head_text with_remote perform
  http_by-Starts decision raw method target version headers body host port path s direct opened = (
    outbound_headers headers,
    outbound_headers-IsOutbound headers,
    rw (direct, opened) (adds _ close_remote _ (answered _ (w.answer _ _) _ refl)),
  )
