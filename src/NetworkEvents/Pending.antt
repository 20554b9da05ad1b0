-- ===== src/NetworkEvents/Pending.antt =====
-- The pending events of the store of runtime/proxy-stack/proxy_stack.py, through every operation on it.
use proxy_gateway_console_pu.Prelude.{
  sym, ◌==◌, ◌&&◌, ◌||◌, Bool, true, false, ◌≡◌, refl, All, inl, inr, [], ◌∷◌, List, String, ℕ,
  eq_iff, Bool-cases, arith,
}
use proxy_gateway_console_pu.NetworkEvents.{Event, Plan, awaits, seen_again, new_event, or_else}

abbrev pub waits : Event → Bool
waits event = event.status == "pending" && event.kind == "phone_tether_detected"

-- Two pending events that would be taken for the same link.
unfoldable pub clash : Event → Event → Bool
clash a b =
    waits a
    && waits b
    && a.interface == b.interface
    && (a.connection == b.connection || a.connection == "" || b.connection == "")

abbrev pub Apart : Event → Event → Type 0
Apart a b = clash a b ≡ false

unfoldable pub NoClash : List Event → Type 0
NoClash [] = Unit {0}
NoClash (event ∷ events) = All (Apart event) events × NoClash events

first_of_three : (a : Bool) {b c : Bool} → b ≡ false → c ≡ false → (a || b || c) ≡ true → a ≡ true
first_of_three a hb hc h = ground arith

same_link :
    (p e : String) → (e == "") ≡ false → (e == p || e == "" || p == "") ≡ true → or_else p e ≡ e
same_link p e known meets = elim (Bool-cases (p == "")) [
  | inl h ↦ rw h refl
  | inr h ↦ rw h (sym ((eq_iff e p).0 (first_of_three (e == p) known h meets)))
]

module _ (plan : Plan) (action now : String) (route : String × String) where
  awaits_link :
      (event : Event)
      → awaits plan event ≡ true
      → (event.connection == plan.connection || event.connection == "" || plan.connection == "")
        ≡ true
  unfolding awaits
  awaits_link event awaited = ground arith

  -- An event that is apart from one that awaits the plan stays apart from it as it is seen again.
  pub seen-Apart :
      (event other : Event)
      → awaits plan event ≡ true
      → Apart event other
      → Apart (seen_again plan action now route event) other
  unfolding awaits seen_again clash
  seen-Apart event other awaited apart = elim (Bool-cases (event.connection == "")) [
    | inl h ↦ ground arith
    | inr h ↦ rw (same_link plan.connection event.connection h (awaits_link event awaited)) apart
  ]

  pub Apart-seen :
      (event other : Event)
      → awaits plan event ≡ true
      → Apart other event
      → Apart other (seen_again plan action now route event)
  unfolding awaits seen_again clash
  Apart-seen event other awaited apart = elim (Bool-cases (event.connection == "")) [
    | inl h ↦ ground arith
    | inr h ↦ rw (same_link plan.connection event.connection h (awaits_link event awaited)) apart
  ]

  -- A link that no event awaits is apart from all.
  pub new-Apart :
      (millis : ℕ) (other : Event)
      → awaits plan other ≡ false
      → Apart other (new_event plan action now route millis)
  unfolding awaits new_event clash
  new-Apart millis other not_awaited = ground arith
