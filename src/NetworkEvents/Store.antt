-- ===== src/NetworkEvents/Store.antt =====
-- The store of events of runtime/proxy-stack/proxy_stack.py, through the operations that rewrite it.
use proxy_gateway_console_pu.Prelude.{
  true, false, ◌≡◌, All, All-append, inl, inr, ◌++◌, [], ◌∷◌, List, String, ◌≤◌, ◌-◌, length, drop,
  zero, suc, ℕ, Bool-cases, arith, Option, none, some,
}
use proxy_gateway_console_pu.NetworkEvents.{
  Net, System, run, Event, Plan, awaits, seen_again, observe, also, new_event, recorded,
  record_phone_tether_event, default_route_probe, write_network_event_store,
}
use proxy_gateway_console_pu.NetworkEvents.Pending.{
  Apart, NoClash, seen-Apart, Apart-seen, new-Apart,
}

-- No two pending events stand for one link, and the file keeps 80 events at most.
pub record IsStore (n : Net) : Type 0 where
  pub no_clash : NoClash n.events
  pub bounded : length n.events ≤ 80

All-drop : {A : Type 0} (P : A → Type 0) (k : ℕ) (xs : List A) → All P xs → All P (drop k xs)
All-drop P zero xs h = h
All-drop P (suc k) [] h = h
All-drop P (suc k) (x ∷ xs) h = All-drop P k xs h.1

NoClash-drop : (k : ℕ) (events : List Event) → NoClash events → NoClash (drop k events)
unfolding NoClash
NoClash-drop zero events h = h
NoClash-drop (suc k) [] h = h
NoClash-drop (suc k) (event ∷ events) h = NoClash-drop k events h.1

length-drop : {A : Type 0} (k : ℕ) (xs : List A) → length (drop k xs) ≡ length xs - k
length-drop zero xs = omega arith
length-drop (suc k) [] = omega arith
length-drop (suc k) (x ∷ xs) = omega (arith, length-drop k xs)

-- Writing keeps the last 80.
pub write-IsStore :
    (events : List Event) (n : Net) → NoClash events → IsStore (write_network_event_store events n)
unfolding write_network_event_store
write-IsStore events n h = record {
  no_clash = NoClash-drop (length events - 80) events h;
  bounded = omega (arith, length-drop (length events - 80) events);
}

NoClash-snoc :
    (events : List Event) (new : Event)
    → NoClash events
    → All (λ e. Apart e new) events
    → NoClash (events ++ new ∷ [])
unfolding NoClash
NoClash-snoc [] new h apart = (tt, tt)
NoClash-snoc (event ∷ events) new h apart = (
  All-append (Apart event) events (new ∷ []) h.0 (apart.0, tt),
  NoClash-snoc events new h.1 apart.1,
)

module _ (plan : Plan) (action now : String) (route : String × String) where
  -- One event that awaits the plan is seen again, wherever it stands.
  pub data Seen : List Event → List Event → Type 0 where
    here :
        (e : Event) (events : List Event)
        → awaits plan e ≡ true
        → Seen (e ∷ events) (seen_again plan action now route e ∷ events)
    there :
        (e : Event) (events updated : List Event)
        → Seen events updated
        → Seen (e ∷ events) (e ∷ updated)

  abbrev pub Observed : List Event → Option (List Event) → Type 0
  Observed events none = All (λ e. awaits plan e ≡ false) events
  Observed events (some updated) = Seen events updated

  observe_more :
      (e : Event) (events : List Event) (seen : Option (List Event))
      → awaits plan e ≡ false
      → Observed events seen
      → Observed (e ∷ events) (also e seen)
  observe_more e events none not_awaited rest = (not_awaited, rest)
  observe_more e events (some updated) not_awaited rest = there e events updated rest

  pub observe-Observed :
      (events : List Event) → Observed events (observe plan action now route events)
  unfolding observe
  observe-Observed [] = tt
  observe-Observed (e ∷ events) = elim (Bool-cases (awaits plan e)) [
    | inl h ↦ rw h (here e events h)
    | inr h ↦ rw h (observe_more e events _ h (observe-Observed events))
  ]

  All-Seen :
      (P : Event → Type 0) {events updated : List Event}
      → ((e : Event) → awaits plan e ≡ true → P e → P (seen_again plan action now route e))
      → Seen events updated
      → All P events
      → All P updated
  All-Seen P kept (here e events awaited) h = (kept e awaited h.0, h.1)
  All-Seen P kept (there e events updated rest) h = (h.0, All-Seen P kept rest h.1)

  All-implied :
      (P Q : Event → Type 0) (events : List Event)
      → ((e : Event) → P e → Q e)
      → All P events
      → All Q events
  All-implied P Q [] f h = h
  All-implied P Q (e ∷ events) f h = (f e h.0, All-implied P Q events f h.1)

  NoClash-Seen :
      {events updated : List Event} → Seen events updated → NoClash events → NoClash updated
  unfolding NoClash
  NoClash-Seen (here e events awaited) h = (
    All-implied (Apart e) (Apart (seen_again plan action now route e)) events
        (λ o apart. seen-Apart plan action now route e o awaited apart) h.0,
    h.1,
  )
  NoClash-Seen (there e events updated rest) h = (
    All-Seen (Apart e) (λ o awaited apart. Apart-seen plan action now route o e awaited apart) rest
        h.0,
    NoClash-Seen rest h.1,
  )

  recorded_of :
      (events : List Event) (millis : ℕ) (seen : Option (List Event))
      → Observed events seen
      → NoClash events
      → NoClash (elim seen as (λ x. List Event) [
        | some updated ↦ updated
        | none ↦ events ++ new_event plan action now route millis ∷ []
      ])
  recorded_of events millis none not_awaited h =
      NoClash-snoc events (new_event plan action now route millis) h (
        All-implied (λ e. awaits plan e ≡ false)
          (λ e. Apart e (new_event plan action now route millis)) events
          (λ o no. new-Apart plan action now route millis o no) not_awaited)
  recorded_of events millis (some updated) seen h = NoClash-Seen seen h

  NoClash-recorded :
      (millis : ℕ) (events : List Event)
      → NoClash events
      → NoClash (recorded plan action now route millis events)
  unfolding recorded
  NoClash-recorded millis events h =
      recorded_of events millis (observe plan action now route events) (observe-Observed events) h

pub record_phone_tether_event-IsStore :
    (w : System) (plan : Plan) (action : String) (n : Net)
    → NoClash n.events
    → IsStore (record_phone_tether_event w plan action n)
unfolding record_phone_tether_event default_route_probe run
record_phone_tether_event-IsStore w plan action n h =
    write-IsStore _ _ (NoClash-recorded plan action _ _ _ n.events h)
