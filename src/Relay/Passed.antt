-- ===== src/Relay/Passed.antt =====
-- What it means that `tunnel` of the proxies in runtime/proxy-stack passed on an initial part of the reads,
-- and why it ended there.
use proxy_gateway_console_pu.Relay.{
  remote_side, to_client, to_remote, client_side, no_more, Effect, Side, forward, Round,
}
use proxy_gateway_console_pu.Prelude.{
  true, ap, ◌||◌, ◌∙◌, sym, inr, inl, Bool-cases, ◌≡◌, List, [], ◌∷◌, ◌++◌, map, String, refl, ◌⊎◌,
}
use proxy_gateway_console_pu.Outcome.{Exception, Outcome, ok, raised}
use mathlib.Core.List.{map-append, append-nil, append_assoc}

-- What a readable socket gave, when it gave a chunk.
abbrev pub gave : Side × String → Side × Outcome String
gave (side, chunk) = (side, ok chunk)

-- The other side's socket is written to.
unfoldable pub across : Side × String → Effect
across (client_side, chunk) = to_remote chunk
across (remote_side, chunk) = to_client chunk

pub forward-across : (x : Side × String) → forward x ≡ across x
unfolding across
forward-across (client_side, chunk) = refl
forward-across (remote_side, chunk) = refl

-- The chunks that were passed on, and the reads that were left.
pub record Passed (events : List (Side × Outcome String)) (before_it after_it : List Effect)
    : Type 0 where
  pub done : List (Side × String)
  pub left : List (Side × Outcome String)
  pub in_order : events ≡ map gave done ++ left
  pub nothing_else : after_it ≡ before_it ++ map across done

unfoldable pub all_events : List Round → List (Side × Outcome String)
all_events [] = []
all_events (r ∷ rs) = r.readable ++ all_events rs

-- A socket that gave an error, or its end.
abbrev pub Stops : Side × Outcome String → Type 0
Stops (side, result) = ((e : Exception) × (result ≡ raised e)) ⊎ (result ≡ ok "")

abbrev pub StopsFirst : List (Side × Outcome String) → Type 0
StopsFirst left =
    (event : Side × Outcome String) × (rest : List (Side × Outcome String)) × (left ≡ event ∷ rest)
    × Stops event

-- The last call failed.
abbrev pub LastFailed : (List Effect → Effect → Outcome (Unit {0})) → List Effect → Type 0
LastFailed answer trace =
    (before_it : List Effect) × (call : Effect) × (e : Exception) × (trace ≡ before_it ++ call ∷ [])
    × (answer before_it call ≡ raised e)

-- `select` reports an error, or nothing to read, before the reads that are left.
abbrev pub ToldToStop : List Round → List (Side × Outcome String) → Type 0
ToldToStop rounds left =
    (earlier : List Round) × (r : Round) × (rs : List Round) × (rounds ≡ earlier ++ r ∷ rs)
    × (left ≡ all_events (r ∷ rs))
    × ((r.errored ≡ true) ⊎ (r.readable ≡ []))

-- Why no more was passed on: nothing is left, a read stops the tunnel, a write failed, or `select` says so.
abbrev pub Why :
    (List Effect → Effect → Outcome (Unit {0}))
    → List Round
    → List Effect
    → List (Side × Outcome String)
    → Type 0
Why answer rounds trace left =
    (left ≡ []) ⊎ (StopsFirst left ⊎ (LastFailed answer trace ⊎ ToldToStop rounds left))

unfoldable pub nothing :
    (events : List (Side × Outcome String)) (effects : List Effect) → Passed events effects effects
nothing events effects = record {
  done = [];
  left = events;
  in_order = refl;
  nothing_else = sym (append-nil effects);
}

-- The events of the rounds that the tunnel did not come to are left too.
unfoldable pub more :
    {events : List (Side × Outcome String)} {a b : List Effect}
    (extra : List (Side × Outcome String))
    → Passed events a b
    → Passed (events ++ extra) a b
more extra p = record {
  done = p.done;
  left = p.left ++ extra;
  in_order = ap (λ l. l ++ extra) p.in_order ∙ append_assoc (map gave p.done) p.left extra;
  nothing_else = p.nothing_else;
}

unfoldable pub joined :
    {events extra : List (Side × Outcome String)} {a b c : List Effect} (p : Passed events a b)
    → p.left ≡ []
    → Passed extra b c
    → Passed (events ++ extra) a c
joined {extra = extra} {a} p none_left q = record {
  done = p.done ++ q.done;
  left = q.left;
  in_order =
      rw
        (
          p.in_order,
          none_left,
          append-nil (map gave p.done),
          q.in_order,
          map-append gave p.done q.done,
        )
        (sym (append_assoc (map gave p.done) (map gave q.done) q.left));
  nothing_else =
      rw (q.nothing_else, p.nothing_else, map-append across p.done q.done)
        (append_assoc a (map across p.done) (map across q.done));
}

-- What the tunnel passed on, and why no more.
abbrev pub PassedWhy :
    (List Effect → Effect → Outcome (Unit {0})) → List Round → List Effect → List Effect → Type 0
PassedWhy answer rounds before_it after_it =
    (p : Passed (all_events rounds) before_it after_it) × Why answer rounds after_it p.left

pub stops_before :
    {left : List (Side × Outcome String)} (extra : List (Side × Outcome String))
    → StopsFirst left
    → StopsFirst (left ++ extra)
stops_before extra (event, rest, is, stops) = (event, rest ++ extra, ap (λ l. l ++ extra) is, stops)

pub one_round_more :
    {answer : List Effect → Effect → Outcome (Unit {0})} (round : Round) {rounds : List Round}
    {trace : List Effect} {left : List (Side × Outcome String)}
    → Why answer rounds trace left
    → Why answer (round ∷ rounds) trace left
one_round_more round (inl none_left) = inl none_left
one_round_more round (inr (inl stops)) = inr (inl stops)
one_round_more round (inr (inr (inl failed))) = inr (inr (inl failed))
one_round_more round (inr (inr (inr (earlier, r, rs, is, left, why)))) =
    inr (inr (inr (round ∷ earlier, r, rs, ap (λ l. round ∷ l) is, left, why)))

pub told :
    (round : Round)
    → (round.errored || no_more round.readable) ≡ true
    → (round.errored ≡ true) ⊎ (round.readable ≡ [])
told round h = elim (Bool-cases round.errored) [
  | inl e ↦ inl e
  | inr e ↦ inr (none_readable round.readable (rw e at h))
]
  where
    none_readable : (events : List (Side × Outcome String)) → no_more events ≡ true → events ≡ []
    none_readable [] q = refl
    none_readable (x ∷ xs) q = cc
