-- ===== src/Relay/Order.antt =====
-- What `tunnel` of the proxies in runtime/proxy-stack passes on, and in which order.
use proxy_gateway_console_pu.Relay.{
  Io, no_more, until_over, ◌>>=◌, return_io, unless_over, resume, is_os_error, if_os_error, perform,
  except, Effect, Conn, Side, Turn, go_on, over, serve_socket, serve_round, tunnel, forward, Round,
}
use proxy_gateway_console_pu.Prelude.{
  eq_iff, ap, ◌||◌, ◌∙◌, sym, inr, inl, ◌==◌, Bool-cases, ◌≡◌, List, [], ◌∷◌, ◌++◌, map, String,
  refl, ◌⊎◌,
}
use proxy_gateway_console_pu.Outcome.{Outcome-cases, Exception, Outcome, ok, raised}
use mathlib.Core.List.{append-nil, append_assoc}
use proxy_gateway_console_pu.Relay.Passed.{
  gave, across, forward-across, Passed, nothing, more, joined, Stops, StopsFirst, LastFailed,
  all_events, PassedWhy, stops_before, one_round_more, told,
}

module _ {M : Type 0} (answer : List Effect → Effect → Outcome (Unit {0})) where
  -- What one socket's turn leaves: nothing was sent and the tunnel ends, or its chunk was.
  abbrev Served : Side × Outcome String → Conn M → Outcome Turn × Conn M → Type 0
  Served event s (r, t) =
      ((t.trace ≡ s.trace) × Stops event × ((r ≡ ok go_on) → ⊥))
      ⊎ ((chunk : String) × (event ≡ gave (event.0, chunk))
          × (t.trace ≡ s.trace ++ across (event.0, chunk) ∷ [])
          × ((r ≡ ok go_on) ⊎ LastFailed answer t.trace))

  quits :
      (e : Exception) (event : Side × Outcome String) (s : Conn M)
      → Stops event
      → Served event s (if_os_error over e s)
  quits e event s stops = elim (Bool-cases (is_os_error e)) [
    | inl b ↦ inl (rw b refl, stops, rw b (λ p. cc))
    | inr b ↦ inl (rw b refl, stops, rw b (λ p. cc))
  ]

  abbrev send : Side × String → Io M Turn
  send x = except (perform answer (forward x) >>= λ _. return_io go_on) (if_os_error over)

  sends :
      (x : Side × String) (s : Conn M)
      → ((send x s).1.trace ≡ s.trace ++ forward x ∷ [])
        × (((send x s).0 ≡ ok go_on) ⊎ ((e : Exception) × (answer s.trace (forward x) ≡ raised e)))
  unfolding except perform
  sends x s = elim (Outcome-cases (answer s.trace (forward x))) [
    | inl (u, q) ↦ (rw q refl, inl (rw q refl))
    | inr (e, q) ↦ elim (Bool-cases (is_os_error e)) [
      | inl b ↦ (rw (q, b) refl, inr (e, q))
      | inr b ↦ (rw (q, b) refl, inr (e, q))
    ]
  ]

  sent-Served :
      (side : Side) (chunk : String) (s : Conn M) → Served (side, ok chunk) s (send (side, chunk) s)
  sent-Served side chunk s =
      let (sent, how) = sends (side, chunk) s in
      let trace = sent ∙ ap (λ e. s.trace ++ e ∷ []) (forward-across (side, chunk)) in
      inr (
        chunk,
        refl,
        trace,
        elim how [
          | inl goes ↦ inl goes
          | inr (e, failed) ↦ inr (s.trace, forward (side, chunk), e, sent, failed)
        ],
      )

  serve_socket-Served :
      (event : Side × Outcome String) (s : Conn M) → Served event s (serve_socket answer event s)
  unfolding serve_socket
  serve_socket-Served (side, raised e) s = quits e (side, raised e) s (inl (e, refl))
  serve_socket-Served (side, ok chunk) s = elim (Bool-cases (chunk == "")) [
    | inl e ↦ inl (rw e refl, inr (ap ok ((eq_iff chunk "").0 e)), rw e (λ p. cc))
    | inr e ↦ rw e (sent-Served side chunk s)
  ]

  -- A part of the tunnel: what it passed on, and that nothing is left if it goes on, and else why it ends.
  abbrev PassedAs : List (Side × Outcome String) → Conn M → Outcome Turn × Conn M → Type 0
  PassedAs events s (r, t) =
      (p : Passed events s.trace t.trace) × (((r ≡ ok go_on) × (p.left ≡ []))
        ⊎ (((r ≡ ok go_on) → ⊥) × (StopsFirst p.left ⊎ LastFailed answer t.trace)))

  stopped_at :
      (event : Side × Outcome String) (events : List (Side × Outcome String)) (s : Conn M)
      (out : Outcome Turn × Conn M)
      → out.1.trace ≡ s.trace
      → Stops event
      → (out.0 ≡ ok go_on → ⊥)
      → PassedAs (event ∷ events) s out
  stopped_at event events s (r, t) same stops ends = (
    record {
      done = [];
      left = event ∷ events;
      in_order = refl;
      nothing_else = same ∙ sym (append-nil s.trace);
    },
    inr (ends, inl (event, events, refl, stops)),
  )

  failed_after :
      (event : Side × Outcome String) (chunk : String) (events : List (Side × Outcome String))
      (s : Conn M) (out : Outcome Turn × Conn M)
      → event ≡ gave (event.0, chunk)
      → out.1.trace ≡ s.trace ++ across (event.0, chunk) ∷ []
      → LastFailed answer out.1.trace
      → (out.0 ≡ ok go_on → ⊥)
      → PassedAs (event ∷ events) s out
  failed_after event chunk events s (r, t) is sent failed ends = (
    record {
      done = (event.0, chunk) ∷ [];
      left = events;
      in_order = ap (λ v. v ∷ events) is;
      nothing_else = sent;
    },
    inr (ends, inr failed),
  )

  went_on :
      (event : Side × Outcome String) (chunk : String) (events : List (Side × Outcome String))
      (s t : Conn M) (out : Outcome Turn × Conn M)
      → event ≡ gave (event.0, chunk)
      → t.trace ≡ s.trace ++ across (event.0, chunk) ∷ []
      → PassedAs events t out
      → PassedAs (event ∷ events) s out
  went_on event chunk events s t (r, u) is sent (p, how) = (
    record {
      done = (event.0, chunk) ∷ p.done;
      left = p.left;
      in_order = ap (λ l. event ∷ l) p.in_order ∙ ap (λ v. v ∷ map gave p.done ++ p.left) is;
      nothing_else =
          p.nothing_else
          ∙ ap (λ x. x ++ map across p.done) sent
          ∙ append_assoc s.trace (across (event.0, chunk) ∷ []) (map across p.done);
    },
    how,
  )

  first :
      (event : Side × Outcome String) (events : List (Side × Outcome String)) (s : Conn M)
      (out : Outcome Turn × Conn M)
      → Served event s out
      → ((t : Conn M) → PassedAs events t (serve_round answer events t))
      → PassedAs (event ∷ events) s (resume out.0 (unless_over (serve_round answer events)) out.1)
  first event events s (raised e, t) (inl (same, stops, ends)) rest =
      stopped_at event events s (raised e, t) same stops (λ p. cc)
  first event events s (ok over, t) (inl (same, stops, ends)) rest =
      stopped_at event events s (ok over, t) same stops (λ p. cc)
  first event events s (ok go_on, t) (inl (same, stops, ends)) rest = absurd (ends refl)
  first event events s (raised e, t) (inr (chunk, is, sent, inr failed)) rest =
      failed_after event chunk events s (raised e, t) is sent failed (λ p. cc)
  first event events s (ok over, t) (inr (chunk, is, sent, inr failed)) rest =
      failed_after event chunk events s (ok over, t) is sent failed (λ p. cc)
  first event events s (raised e, t) (inr (chunk, is, sent, inl goes)) rest = absurd cc
  first event events s (ok over, t) (inr (chunk, is, sent, inl goes)) rest = absurd cc
  first event events s (ok go_on, t) (inr (chunk, is, sent, how)) rest =
      went_on event chunk events s t (serve_round answer events t) is sent (rest t)

  serve_round-PassedAs :
      (events : List (Side × Outcome String)) (s : Conn M)
      → PassedAs events s (serve_round answer events s)
  unfolding serve_round nothing
  serve_round-PassedAs [] s = (nothing [] s.trace, inl (refl, refl))
  serve_round-PassedAs (event ∷ events) s =
      first event events s (serve_socket answer event s) (serve_socket-Served event s)
        (serve_round-PassedAs events)

  then_rounds :
      (round : Round) (rounds : List Round) (s : Conn M) (out : Outcome Turn × Conn M)
      → PassedAs round.readable s out
      → ((t : Conn M) → PassedWhy answer rounds t.trace (tunnel answer rounds t).1.trace)
      → PassedWhy answer
          (round ∷ rounds)
          s.trace
          (resume out.0 (until_over (tunnel answer rounds)) out.1).1.trace
  unfolding all_events more joined
  then_rounds round rounds s (raised e, t) (p, inl (goes, none_left)) rest = absurd cc
  then_rounds round rounds s (ok over, t) (p, inl (goes, none_left)) rest = absurd cc
  then_rounds round rounds s (ok go_on, t) (p, inl (goes, none_left)) rest =
      let (q, why) = rest t in (joined p none_left q, one_round_more round why)
  then_rounds round rounds s (ok go_on, t) (p, inr (ends, why)) rest = absurd (ends refl)
  then_rounds round rounds s (raised e, t) (p, inr (ends, inl stops)) rest =
      (more (all_events rounds) p, inr (inl (stops_before (all_events rounds) stops)))
  then_rounds round rounds s (raised e, t) (p, inr (ends, inr failed)) rest =
      (more (all_events rounds) p, inr (inr (inl failed)))
  then_rounds round rounds s (ok over, t) (p, inr (ends, inl stops)) rest =
      (more (all_events rounds) p, inr (inl (stops_before (all_events rounds) stops)))
  then_rounds round rounds s (ok over, t) (p, inr (ends, inr failed)) rest =
      (more (all_events rounds) p, inr (inr (inl failed)))

  -- Whatever the answers of `select`, of the reads and of the writes are: the calls that `tunnel` makes
  -- pass on the chunks of an initial part of the reads, each to the other side, in the order they came
  -- in, and the tunnel makes no other. That part is all of the reads, unless the first read that is left
  -- is an error or the end of a stream, or the last write failed, or `select` reported an error or nothing
  -- to read before the reads that are left.
  pub tunnel-Passed :
      (rounds : List Round) (s : Conn M)
      → PassedWhy answer rounds s.trace (tunnel answer rounds s).1.trace
  unfolding tunnel nothing
  tunnel-Passed [] s = unfold all_events in (nothing [] s.trace, inl refl)
  tunnel-Passed (round ∷ rounds) s =
      let rest = tunnel-Passed rounds in
      elim (Bool-cases (round.errored || no_more round.readable)) [
        | inl e ↦ rw e (
          nothing (all_events (round ∷ rounds)) s.trace,
          inr (inr (inr ([], round, rounds, refl, refl, told round e))),
        )
        | inr e ↦ rw e (
            then_rounds round rounds s (serve_round answer round.readable s)
              (serve_round-PassedAs round.readable s) rest)
      ]
