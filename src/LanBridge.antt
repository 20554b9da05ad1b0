-- ===== src/LanBridge.antt =====
-- The bridge of runtime/proxy-stack/lan_tcp_bridge.py, which exposes a local port on the LAN.
pub mod Closing
use proxy_gateway_console_pu.Prelude.{
  ◌==◌, any, Bool, true, false, if◌then◌else◌, [], ◌∷◌, List, String, ℤ, Option, some, none, ◌≡◌,
  refl,
}
use proxy_gateway_console_pu.Outcome.{Outcome, ok, raised, Exception, os_error, value_error}
use proxy_gateway_console_pu.Relay.{
  ◌>>=◌, ◌>>◌, Io, Conn, Effect, dial_direct, close_client, close_remote, perform, note, lift,
  return_io, except, if_os_error, is_os_error, Side, client_side, remote_side, forward,
}

abbrev with_network : {N : Type 0} → Outcome N → Outcome (List N) → Outcome (List N)
with_network (raised e) rest = raised e
with_network (ok network) (raised e) = raised e
with_network (ok network) (ok networks) = ok (network ∷ networks)

-- Networks are what `ipaddress.ip_network` reads.
unfoldable pub parse_networks : {N : Type 0} → (String → Outcome N) → List String → Outcome (List N)
parse_networks ip_network [] = ok []
parse_networks ip_network (value ∷ values) =
    let rest = parse_networks ip_network values in
    if value == "" then rest else with_network (ip_network value) rest

abbrev pub in_some : {A N : Type 0} → (A → N → Bool) → Option A → List N → Bool
in_some contains none networks = false
in_some contains (some address) networks = any (contains address) networks

-- The address that `ipaddress.ip_address` reads, none where it raises ValueError, and whether an address
-- is in a network, are parameters.
unfoldable pub client_allowed :
    {A N : Type 0} → (String → Option A) → (A → N → Bool) → String → List N → Bool
client_allowed ip_address contains host [] = true
client_allowed ip_address contains host (network ∷ networks) =
    in_some contains (ip_address host) (network ∷ networks)

-- How a part of the loop ends: it goes on, both sockets were closed, or a write failed.
pub data Turn : Type 0 where
  go_on closed failed : Turn

-- Whether the relay has ended, or `select` is still to be asked.
pub data Relayed : Type 0 where
  waiting ended : Relayed

-- for sock in (source, target): … sock.close()
abbrev pub closing : Side → List Effect
closing client_side = close_client ∷ close_remote ∷ []
closing remote_side = close_remote ∷ close_client ∷ []

module _ (answer : List Effect → Effect → Outcome (Unit {0})) where
  abbrev Act : Type 0 → Type 0
  Act A = Io (Unit {0}) A

  unfoldable pub close_all : List Effect → Act (Unit {0})
  close_all [] = return_io tt
  close_all (e ∷ es) = note e >> close_all es

  -- One socket that is readable. A read that raises OSError counts as the end.
  unfoldable pub serve_one : Side × Outcome String → Act Turn
  serve_one (side, raised e) =
      if is_os_error e
      then (close_all (closing side) >>= λ _. return_io closed)
      else lift (raised e)
  serve_one (side, ok chunk) =
      if chunk == ""
      then (close_all (closing side) >>= λ _. return_io closed)
      else except (perform answer (forward (side, chunk)) >>= λ _. return_io go_on)
          (if_os_error failed)

  abbrev pub and_on : Act Turn → Turn → Act Turn
  and_on rest go_on = rest
  and_on rest closed = return_io closed
  and_on rest failed = return_io failed

  unfoldable pub serve_events : List (Side × Outcome String) → Act Turn
  serve_events [] = return_io go_on
  serve_events (event ∷ events) = serve_one event >>= and_on (serve_events events)

  -- The `while` loop, by the answers of `select`. It goes on as long as there are answers.
  unfoldable pub relay_loop : List (List (Side × Outcome String)) → Act Turn
  relay_loop [] = return_io go_on
  relay_loop (events ∷ rest) = serve_events events >>= and_on (relay_loop rest)

  -- The `finally` block closes what the loop has not closed.
  abbrev pub finally : Outcome Turn → Act Relayed
  finally (ok go_on) = return_io waiting
  finally (ok closed) = return_io ended
  finally (ok failed) = close_all (closing client_side) >>= λ _. return_io ended
  finally (raised e) = close_all (closing client_side) >>= λ _. lift (raised e)

  abbrev with_finally : Act Turn → Act Relayed
  with_finally m s = let (r, t) = m s in finally r t

  -- The set-up of the selector stands before the `try` block.
  abbrev pub registered : Outcome (Unit {0}) → List (List (Side × Outcome String)) → Act Relayed
  registered (ok u) rounds = with_finally (relay_loop rounds)
  registered (raised e) rounds = lift (raised e)

  abbrev pub connected :
      Outcome (Unit {0}) → List (List (Side × Outcome String)) → Outcome (Unit {0}) → Act Relayed
  connected setup rounds (ok u) = registered setup rounds
  connected setup rounds (raised e) =
      if is_os_error e then (note close_client >>= λ _. return_io ended) else lift (raised e)

  -- What `getpeername` answers, what `setblocking` and `register` answer for the two sockets, and what
  -- `select` answers, are parameters.
  unfoldable pub relay :
      Outcome (Unit {0})
      → Outcome (Unit {0})
      → String
      → ℤ
      → List (List (Side × Outcome String))
      → Act Relayed
  relay (raised e) setup target_host target_port rounds s = (raised e, s)
  relay (ok u) setup target_host target_port rounds s =
      let (r, t) = perform answer (dial_direct target_host target_port) s in
      connected setup rounds r t
