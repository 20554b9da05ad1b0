-- ===== src/PhoneEgress/Bound.antt =====
-- Where the connections of runtime/proxy-stack/phone_egress_http_proxy.py start.
use proxy_gateway_console_pu.PhoneEgress.{
  version_fits, bind_address_for_source, if_fits, Family, World, connect_from, try_addresses,
  open_remote, fail, handle_connect, forward_to, handle_forward, with_parts, serve, handle,
}
use proxy_gateway_console_pu.Relay.Keeps.{
  Keeps-lift, Keeps-bind, Keeps-if, Keeps, Adds, keeps_calls, Keeps-tunnel,
}
use proxy_gateway_console_pu.Prelude.{
  ℕ, Bool, true, false, ◌≡◌, refl, [], ◌∷◌, ◌++◌, List, String, ℤ, Option, some, none,
}
use proxy_gateway_console_pu.Outcome.{Outcome, ok, raised}
use proxy_gateway_console_pu.Relay.{
  ◌>>=◌, Io, Conn, Effect, dial_direct, dial_upstream, new_socket, bind_source, connect_to,
  to_client, to_remote, close_remote, perform, lift, resume, tunnel,
}

unfoldable pub opens : Effect → Bool
opens (dial_direct host port) = true
opens dial_upstream = true
opens (connect_to address) = true
opens e = false

-- The traces in which every connection follows at once on a binding of its socket to the source that was
-- answered without an error.
pub data Bound (answer : List Effect → Effect → Outcome (Unit {0})) (source : String)
    : List Effect → Type 0 where
  start : Bound answer source []
  other :
      {effects : List Effect} (e : Effect)
      → opens e ≡ false
      → Bound answer source effects
      → Bound answer source (effects ++ e ∷ [])
  connection :
      {effects : List Effect} (address : String)
      → Bound answer source effects
      → answer effects (bind_source source) ≡ ok tt
      → Bound answer source ((effects ++ bind_source source ∷ []) ++ connect_to address ∷ [])

module _ (w : World) where
  abbrev Stays : List Effect → Type 0
  Stays effects = Bound w.answer w.source_ip effects

  Adds-other : (e : Effect) → opens e ≡ false → Adds Stays e
  Adds-other e h effects p = other e h p

  clients : (t : String) → Adds Stays (to_client t)
  unfolding opens
  clients t = Adds-other (to_client t) refl

  remotes : (t : String) → Adds Stays (to_remote t)
  unfolding opens
  remotes t = Adds-other (to_remote t) refl

  closes : Adds Stays close_remote
  unfolding opens
  closes = Adds-other close_remote refl

  sockets : Adds Stays new_socket
  unfolding opens
  sockets = Adds-other new_socket refl

  tunnel-Keeps : Keeps Stays {M = Unit {0}} (tunnel w.answer w.rounds)
  tunnel-Keeps = Keeps-tunnel Stays clients remotes w.answer w.rounds

  ruleset calls = (keeps_calls, clients, remotes, closes, sockets, tunnel-Keeps)

  -- The two calls of one attempt.
  attempt :
      (r : Outcome (Unit {0})) (address : String) (s : Conn (Unit {0}))
      → w.answer s.trace (bind_source w.source_ip) ≡ r
      → Stays s.trace
      → Stays
          (resume r
            (λ u. perform w.answer (connect_to address))
            (record s { trace = s.trace ++ bind_source w.source_ip ∷ [] })).1.trace
  unfolding perform opens
  attempt (ok u) address s q p = connection address p q
  attempt (raised e) address s q p = other (bind_source w.source_ip) refl p

  attempt-Keeps :
      (address : String)
      → Keeps Stays {M = Unit {0}} (
          perform w.answer (bind_source w.source_ip) >>= λ u. perform w.answer (connect_to address))
  unfolding perform
  attempt-Keeps address = record {
    at = λ s p. attempt (w.answer s.trace (bind_source w.source_ip)) address s refl p;
  }

  -- What may be bound is the source.
  IsSource : Option String → Type 0
  IsSource none = Unit
  IsSource (some source) = source ≡ w.source_ip

  fits-IsSource : (b : Bool) → IsSource (if_fits w b)
  unfolding IsSource
  fits-IsSource true = refl
  fits-IsSource false = tt

  connect_from-Keeps :
      (bound : Option String) (address : String) (next : List String → Io (Unit {0}) (Unit {0}))
      (errors : List String)
      → IsSource bound
      → ((texts : List String) → Keeps Stays (next texts))
      → Keeps Stays (connect_from w bound address next errors)
  unfolding connect_from IsSource
  connect_from-Keeps none address next errors same rest = rest errors
  connect_from-Keeps (some source) address next errors same rest =
      rw same (search (calls, attempt-Keeps, rest) depth 9)

  bound_next :
      (r : Outcome ℕ) (family : Family) (address : String)
      (next : List String → Io (Unit {0}) (Unit {0})) (errors : List String)
      → ((texts : List String) → Keeps Stays (next texts))
      → Keeps Stays (
          lift (elim r as (λ x. Outcome (Option String)) [
            | ok version ↦ ok (if_fits w (version_fits family version))
            | raised e ↦ raised e
          ])
          >>= λ bound. connect_from w bound address next errors)
  bound_next (ok version) family address next errors rest =
      let now =
        connect_from-Keeps (if_fits w (version_fits family version)) address next errors
          (fits-IsSource (version_fits family version)) rest in
      record { at = λ s p. now.at s p }
  bound_next (raised e) family address next errors rest = record { at = λ s p. p }

  try_addresses-Keeps :
      (addresses : List (Family × String)) (errors : List String)
      → Keeps Stays (try_addresses w addresses errors)
  unfolding try_addresses bind_address_for_source
  try_addresses-Keeps [] errors = search calls
  try_addresses-Keeps ((family, address) ∷ rest) errors =
      bound_next w.source_version family address (try_addresses w rest) errors
        (try_addresses-Keeps rest)

  open_remote-Keeps : (host : String) (port : ℤ) → Keeps Stays (open_remote w host port)
  unfolding open_remote
  open_remote-Keeps host port =
      Keeps-bind Stays _ _ (Keeps-lift Stays _) (λ addresses. try_addresses-Keeps addresses [])

  fail-Keeps : (message : String) → Keeps Stays (fail w message)
  unfolding fail
  fail-Keeps message = search calls

  forward_to-Keeps : (at : String × ℤ) (outbound : String) → Keeps Stays (forward_to w at outbound)
  unfolding forward_to
  forward_to-Keeps (host, port) outbound = search (calls, fail-Keeps, open_remote-Keeps) depth 9

  handle_connect-Keeps : (target : String) → Keeps Stays (handle_connect w target)
  unfolding handle_connect
  handle_connect-Keeps target = search (calls, open_remote-Keeps) depth 9

  handle_forward-Keeps :
      (raw method target : String) → Keeps Stays (handle_forward w raw method target)
  unfolding handle_forward
  handle_forward-Keeps raw method target = search (calls, forward_to-Keeps) depth 9

  with_parts-Keeps : (parts : List String) (raw : String) → Keeps Stays (with_parts w parts raw)
  with_parts-Keeps [] raw = fail-Keeps _
  with_parts-Keeps (a ∷ []) raw = fail-Keeps _
  with_parts-Keeps (a ∷ b ∷ []) raw = fail-Keeps _
  with_parts-Keeps (a ∷ b ∷ c ∷ rest) raw =
      Keeps-if Stays _ _ _ (handle_connect-Keeps b) (handle_forward-Keeps raw a b)

  serve-Keeps : Keeps Stays (serve w)
  unfolding serve
  serve-Keeps = search (calls, with_parts-Keeps)

  handle-Keeps : Keeps Stays (handle w)
  unfolding handle
  handle-Keeps = search (calls, serve-Keeps, fail-Keeps)

  -- Whatever a client sends and the network answers, the proxy opens no connection but from sockets that
  -- it has just bound, without an error, to the address of the phone.
  pub handle-Bound :
      Bound w.answer w.source_ip (handle w (record { trace = []; memory = tt })).1.trace
  handle-Bound = handle-Keeps.at (record { trace = []; memory = tt }) start
