-- ===== src/LanBridge/Closing.antt =====
-- The sockets that the relay of runtime/proxy-stack/lan_tcp_bridge.py closes.
use proxy_gateway_console_pu.Relay.Quiet.{silent_lem, loud_of, loud_of-snoc, IsSilent}
use proxy_gateway_console_pu.Prelude.{
  ◌==◌, Bool, true, false, ◌≡◌, refl, inl, inr, ◌∙◌, ◌++◌, [], ◌∷◌, List, String, ℤ, Bool-cases, ap,
}
use proxy_gateway_console_pu.Outcome.{Outcome, ok, raised, Exception, Outcome-cases}
use proxy_gateway_console_pu.Relay.{
  ◌>>=◌, Io, Conn, Effect, dial_direct, close_client, close_remote, perform, resume, return_io,
  except, if_os_error, is_os_error, Side, client_side, remote_side, forward,
}
use proxy_gateway_console_pu.LanBridge.{
  Turn, go_on, closed, failed, Relayed, waiting, ended, closing, close_all, serve_one, and_on,
  serve_events, relay_loop, finally, relay, connected,
}
use mathlib.Core.List.{append_assoc}

unfoldable pub is_close : Effect → Bool
is_close close_client = true
is_close close_remote = true
is_close e = false

abbrev pub closes : Conn (Unit {0}) → List Effect
closes s = loud_of is_close s.trace

close_all-closes :
    (answer : List Effect → Effect → Outcome (Unit {0})) (side : Side) (s : Conn (Unit {0}))
    → closes (close_all answer (closing side) s).1 ≡ closes s ++ closing side
unfolding close_all is_close
close_all-closes answer client_side s =
    loud_of-snoc is_close _ close_remote
    ∙ ap (λ l. l ++ close_remote ∷ []) (loud_of-snoc is_close s.trace close_client)
    ∙ append_assoc (closes s) (close_client ∷ []) (close_remote ∷ [])
close_all-closes answer remote_side s =
    loud_of-snoc is_close _ close_client
    ∙ ap (λ l. l ++ close_client ∷ []) (loud_of-snoc is_close s.trace close_remote)
    ∙ append_assoc (closes s) (close_remote ∷ []) (close_client ∷ [])

-- A part of the loop closes both sockets if it ends as `closed`, and none otherwise.
abbrev Part : Conn (Unit {0}) → Outcome Turn × Conn (Unit {0}) → Type 0
Part s (ok closed, t) = (side : Side) × (closes t ≡ closes s ++ closing side)
Part s (ok go_on, t) = closes t ≡ closes s
Part s (ok failed, t) = closes t ≡ closes s
Part s (raised e, t) = closes t ≡ closes s

carry :
    (s t : Conn (Unit {0})) (out : Outcome Turn × Conn (Unit {0}))
    → closes t ≡ closes s
    → Part t out
    → Part s out
carry s t (raised e, u) same h = h ∙ same
carry s t (ok go_on, u) same h = h ∙ same
carry s t (ok failed, u) same h = h ∙ same
carry s t (ok closed, u) same (side, h) = (side, h ∙ ap (λ l. l ++ closing side) same)

module _ (answer : List Effect → Effect → Outcome (Unit {0})) where
  closes_both :
      (side : Side) (s : Conn (Unit {0}))
      → Part s ((close_all answer (closing side) >>= λ _. return_io closed) s)
  unfolding close_all
  closes_both client_side s = (client_side, close_all-closes answer client_side s)
  closes_both remote_side s = (remote_side, close_all-closes answer remote_side s)

  forward-IsSilent : (side : Side) (chunk : String) → IsSilent is_close (forward (side, chunk))
  unfolding is_close
  forward-IsSilent client_side chunk = refl
  forward-IsSilent remote_side chunk = refl

  sends :
      (side : Side) (chunk : String) (s : Conn (Unit {0}))
      → Part s (
          except
            (perform answer (forward (side, chunk)) >>= λ _. return_io go_on)
            (if_os_error failed)
            s)
  unfolding except perform
  sends side chunk s =
      let silent =
        silent_lem is_close s.trace (forward (side, chunk)) (forward-IsSilent side chunk) in
      elim (Outcome-cases (answer s.trace (forward (side, chunk)))) [
        | inl (u, q) ↦ rw q silent
        | inr (e, q) ↦ elim (Bool-cases (is_os_error e)) [
          | inl b ↦ rw (q, b) silent
          | inr b ↦ rw (q, b) silent
        ]
      ]

  serve_one-Part :
      (event : Side × Outcome String) (s : Conn (Unit {0})) → Part s (serve_one answer event s)
  unfolding serve_one
  serve_one-Part (side, raised e) s = elim (Bool-cases (is_os_error e)) [
    | inl b ↦ rw b (closes_both side s)
    | inr b ↦ rw b refl
  ]
  serve_one-Part (side, ok chunk) s = elim (Bool-cases (chunk == "")) [
    | inl b ↦ rw b (closes_both side s)
    | inr b ↦ rw b (sends side chunk s)
  ]

  then-Part :
      (s : Conn (Unit {0})) (out : Outcome Turn × Conn (Unit {0})) (rest : Io (Unit {0}) Turn)
      → Part s out
      → ((t : Conn (Unit {0})) → Part t (rest t))
      → Part s (resume out.0 (and_on answer rest) out.1)
  then-Part s (raised e, t) rest h k = h
  then-Part s (ok closed, t) rest h k = h
  then-Part s (ok failed, t) rest h k = h
  then-Part s (ok go_on, t) rest h k = carry s t (rest t) h (k t)

  serve_events-Part :
      (events : List (Side × Outcome String)) (s : Conn (Unit {0}))
      → Part s (serve_events answer events s)
  unfolding serve_events
  serve_events-Part [] s = refl
  serve_events-Part (event ∷ events) s =
      then-Part s (serve_one answer event s) (serve_events answer events) (serve_one-Part event s)
        (serve_events-Part events)

  relay_loop-Part :
      (rounds : List (List (Side × Outcome String))) (s : Conn (Unit {0}))
      → Part s (relay_loop answer rounds s)
  unfolding relay_loop
  relay_loop-Part [] s = refl
  relay_loop-Part (events ∷ rest) s =
      then-Part s (serve_events answer events s) (relay_loop answer rest)
        (serve_events-Part events s) (relay_loop-Part rest)

-- How the sockets are closed, by how `getpeername`, the connection to the target, the set-up of the selector
-- and the relay went: none where the first or the third raises, the client's alone without a connection,
-- none as long as the relay goes on, else both, once each.
unfoldable pub IsClosed :
    Outcome (Unit {0})
    → Outcome (Unit {0})
    → Outcome (Unit {0})
    → Outcome Relayed
    → List Effect
    → Type 0
IsClosed (raised e) dialled setup r closed_ones = (r ≡ raised e) × (closed_ones ≡ [])
IsClosed (ok u) (raised e) setup r closed_ones = (r ≡ ok ended) × (closed_ones ≡ close_client ∷ [])
IsClosed (ok u) (ok v) (raised e) r closed_ones = (r ≡ raised e) × (closed_ones ≡ [])
IsClosed (ok u) (ok v) (ok t) (ok waiting) closed_ones = closed_ones ≡ []
IsClosed (ok u) (ok v) (ok t) (ok ended) closed_ones = (side : Side) × (closed_ones ≡ closing side)
IsClosed (ok u) (ok v) (ok t) (raised e) closed_ones = (side : Side) × (closed_ones ≡ closing side)

module _ (answer : List Effect → Effect → Outcome (Unit {0})) where
  finally-closes :
      (s : Conn (Unit {0})) (out : Outcome Turn × Conn (Unit {0}))
      → closes s ≡ []
      → Part s out
      → IsClosed
          (ok tt)
          (ok tt)
          (ok tt)
          (finally answer out.0 out.1).0
          (closes (finally answer out.0 out.1).1)
  unfolding IsClosed close_all
  finally-closes s (ok go_on, t) none_yet h = h ∙ none_yet
  finally-closes s (ok closed, t) none_yet (side, h) =
      (side, h ∙ ap (λ l. l ++ closing side) none_yet)
  finally-closes s (ok failed, t) none_yet h = (
    client_side,
    close_all-closes answer client_side t ∙ ap (λ l. l ++ closing client_side) (h ∙ none_yet),
  )
  finally-closes s (raised e, t) none_yet h = (
    client_side,
    close_all-closes answer client_side t ∙ ap (λ l. l ++ closing client_side) (h ∙ none_yet),
  )

  connected-closes :
      (setup : Outcome (Unit {0})) (rounds : List (List (Side × Outcome String)))
      (r : Outcome (Unit {0})) (s : Conn (Unit {0}))
      → closes s ≡ []
      → ((e : Exception) → r ≡ raised e → is_os_error e ≡ true)
      → IsClosed
          (ok tt)
          r
          setup
          (connected answer setup rounds r s).0
          (closes (connected answer setup rounds r s).1)
  unfolding IsClosed loud_of is_close
  connected-closes (ok v) rounds (ok u) s none_yet only =
      finally-closes s (relay_loop answer rounds s) none_yet (relay_loop-Part answer rounds s)
  connected-closes (raised x) rounds (ok u) s none_yet only = (refl, none_yet)
  connected-closes setup rounds (raised e) s none_yet only =
      rw (only e refl) (
        refl,
        loud_of-snoc is_close s.trace close_client ∙ ap (λ l. l ++ close_client ∷ []) none_yet,
      )

  -- Where the connection to the target raises no more than OSError, whatever the reads and writes do: the
  -- relay raises and closes nothing if `getpeername` or the set-up of the selector raises; it closes the
  -- client's socket alone if there is no connection, nothing as long as it goes on, and else, whether it
  -- returns or raises, both sockets once each.
  pub relay-IsClosed :
      (peer setup : Outcome (Unit {0})) (target_host : String) (target_port : ℤ)
      (rounds : List (List (Side × Outcome String)))
      → ((e : Exception)
          → answer [] (dial_direct target_host target_port) ≡ raised e
          → is_os_error e ≡ true)
      → (let out =
            relay answer peer setup target_host target_port rounds
              (record { trace = []; memory = tt }) in
          IsClosed peer
            (answer [] (dial_direct target_host target_port))
            setup
            out.0
            (closes out.1))
  unfolding relay perform is_close loud_of IsClosed
  relay-IsClosed (raised e) setup target_host target_port rounds only = (refl, refl)
  relay-IsClosed (ok u) setup target_host target_port rounds only =
      connected-closes setup rounds (answer [] (dial_direct target_host target_port))
        (record { trace = dial_direct target_host target_port ∷ []; memory = tt }) refl only
