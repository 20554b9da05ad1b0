-- ===== src/NetworkEvents/Asked.antt =====
-- That a phone which is seen by runtime/proxy-stack/proxy_stack.py is asked about.
use proxy_gateway_console_pu.Prelude.{
  ◌&&◌, ◌||◌, false, ◌⊎◌, Bool, eq_iff, inr, inl, ◌==◌, any, true, ◌≡◌, refl, ◌++◌, ◌∙◌, [], ◌∷◌,
  List, String, ◌≤◌, ◌-◌, length, length-append, drop, zero, suc, ℕ, Bool-cases, Option, none, some,
  arith, eq_refl, ap,
}
use proxy_gateway_console_pu.NetworkEvents.{
  Net, System, run, Event, Plan, awaits, seen_again, new_event, recorded, record_phone_tether_event,
  default_route_probe, write_network_event_store,
}
use proxy_gateway_console_pu.NetworkEvents.Store.{Seen, here, there, Observed, observe-Observed}
use proxy_gateway_console_pu.NetworkEvents.Decision.{drop_nothing}

-- An event that waits for a decision on the link of the plan: pending, of a phone on the interface, and of
-- the same connection where both are known.
pub record IsPendingFor (plan : Plan) (event : Event) : Type 0 where
  pub status : event.status ≡ "pending"
  pub kind : event.kind ≡ "phone_tether_detected"
  pub interface : event.interface ≡ plan.interface
  pub connection :
      (event.connection ≡ plan.connection) ⊎ ((event.connection ≡ "") ⊎ (plan.connection ≡ ""))

-- The list holds such an event.
abbrev pub Asks : Plan → List Event → Type 0
Asks plan events =
    (xs : List Event) × (event : Event) × (ys : List Event) × (events ≡ xs ++ event ∷ ys)
    × IsPendingFor plan event

and-true : (a b : Bool) → (a && b) ≡ true → (a ≡ true) × (b ≡ true)
and-true true b h = (refl, h)
and-true false b h = absurd (true-isnt h)
  where
    true-isnt : ◌≡◌ {A = Bool} false true → ⊥
    true-isnt e = cc

or-true : (a b : Bool) → (a || b) ≡ true → (a ≡ true) ⊎ (b ≡ true)
or-true true b h = inl refl
or-true false b h = inr h

awaits-IsPendingFor :
    (plan : Plan) (event : Event) → awaits plan event ≡ true → IsPendingFor plan event
unfolding awaits
awaits-IsPendingFor plan event h =
    let (abc, d) = and-true _ _ h in
    let (ab, c) = and-true _ _ abc in
    let (a, b) = and-true _ _ ab in
    record {
      status = (eq_iff event.status "pending").0 a;
      kind = (eq_iff event.kind "phone_tether_detected").0 b;
      interface = (eq_iff event.interface plan.interface).0 c;
      connection = elim (or-true _ _ d) [
        | inr none_planned ↦ inr (inr ((eq_iff plan.connection "").0 none_planned))
        | inl known ↦ elim (or-true _ _ known) [
          | inl same ↦ inl ((eq_iff event.connection plan.connection).0 same)
          | inr none_seen ↦ inr (inl ((eq_iff event.connection "").0 none_seen))
        ]
      ];
    }

any-Asks : (plan : Plan) (events : List Event) → any (awaits plan) events ≡ true → Asks plan events
any-Asks plan [] h = absurd (nothing h)
  where
    nothing : ◌≡◌ {A = Bool} false true → ⊥
    nothing e = cc
any-Asks plan (e ∷ events) h = elim (or-true (awaits plan e) (any (awaits plan) events) h) [
  | inl first ↦ ([], e, events, refl, awaits-IsPendingFor plan e first)
  | inr later ↦
      let (xs, found, ys, q, is) = any-Asks plan events later in
      (e ∷ xs, found, ys, ap (λ l. e ∷ l) q, is)
]

module _ (plan : Plan) (action now : String) (route : String × String) where
  seen_awaits :
      (e : Event) → awaits plan e ≡ true → awaits plan (seen_again plan action now route e) ≡ true
  unfolding awaits seen_again
  seen_awaits e h = elim (Bool-cases (plan.connection == "")) [
    | inl empty ↦ ground arith
    | inr known ↦ ground (arith, eq_refl plan.connection)
  ]

  new_awaits : (millis : ℕ) → awaits plan (new_event plan action now route millis) ≡ true
  unfolding awaits new_event
  new_awaits millis = rw (eq_refl plan.interface, eq_refl plan.connection) refl

  any_Seen :
      {events updated : List Event}
      → Seen plan action now route events updated
      → any (awaits plan) updated ≡ true
  any_Seen (here e events h) = rw (seen_awaits e h) refl
  any_Seen (there e events updated rest) = elim (Bool-cases (awaits plan e)) [
    | inl h ↦ rw h refl
    | inr h ↦ rw (h, any_Seen rest) refl
  ]

  length_Seen :
      {events updated : List Event}
      → Seen plan action now route events updated
      → length updated ≡ length events
  length_Seen (here e events h) = refl
  length_Seen (there e events updated rest) = omega (arith, length_Seen rest)

  any_last :
      (k : ℕ) (events : List Event) (new : Event)
      → k ≤ length events
      → awaits plan new ≡ true
      → any (awaits plan) (drop k (events ++ new ∷ [])) ≡ true
  any_last zero [] new h a = rw a refl
  any_last zero (e ∷ events) new h a = elim (Bool-cases (awaits plan e)) [
    | inl b ↦ rw b refl
    | inr b ↦ rw (b, any_last zero events new (omega arith) a) refl
  ]
  any_last (suc k) [] new h a = absurd (omega (arith, h))
  any_last (suc k) (e ∷ events) new h a = any_last k events new (omega (arith, h)) a

  kept_asked :
      (events : List Event) (millis : ℕ) (seen : Option (List Event))
      → length events ≤ 80
      → Observed plan action now route events seen
      → (let all_of = elim seen as (λ x. List Event) [
        | some updated ↦ updated
        | none ↦ events ++ new_event plan action now route millis ∷ []
      ] in
          any (awaits plan) (drop (length all_of - 80) all_of) ≡ true)
  kept_asked events millis none bound h =
      any_last _ events (new_event plan action now route millis)
        (omega (arith, bound, length-append events (new_event plan action now route millis ∷ [])))
        (new_awaits millis)
  kept_asked events millis (some updated) bound h =
      ap (any (awaits plan)) (drop_nothing updated (omega (arith, bound, length_Seen h)))
      ∙ any_Seen h

-- Whatever was recorded before, in a store of 80 events at most, and whatever the commands answer: after
-- a phone is recorded, the store holds a pending event of a phone on its interface, of the same
-- connection where both connections are known.
pub record_phone_tether_event-Asks :
    (w : System) (plan : Plan) (action : String) (n : Net)
    → length n.events ≤ 80
    → Asks plan (record_phone_tether_event w plan action n).events
unfolding record_phone_tether_event default_route_probe run write_network_event_store recorded
record_phone_tether_event-Asks w plan action n bound =
    any-Asks plan _
      (kept_asked plan action _ _ n.events _ _ bound (observe-Observed plan action _ _ n.events))
