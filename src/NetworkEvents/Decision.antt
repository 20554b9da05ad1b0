-- ===== src/NetworkEvents/Decision.antt =====
-- What a decision of the user does to the store of runtime/proxy-stack/proxy_stack.py.
use proxy_gateway_console_pu.Prelude.{
  true, ◌≡◌, ap, List, String, ◌≤◌, ◌-◌, length, drop, arith, Option, none, some,
}
use proxy_gateway_console_pu.NetworkEvents.{Net, Event}
use proxy_gateway_console_pu.NetworkEvents.Select.{find_event, is_choice}

-- The event as the decision leaves it: what it is about stays, and the decision and its time are recorded.
pub record IsResolved (choice now : String) (before_it after_it : Event) : Type 0 where
  pub status : after_it.status ≡ "resolved"
  pub decision : after_it.decision ≡ some choice
  pub present : after_it.present ≡ true
  pub resolved_at : after_it.resolved_at ≡ some now
  pub id : after_it.id ≡ before_it.id
  pub kind : after_it.kind ≡ before_it.kind
  pub interface : after_it.interface ≡ before_it.interface
  pub connection : after_it.connection ≡ before_it.connection
  pub driver : after_it.driver ≡ before_it.driver

-- The call reports an error, and the store and the policies are as they were; or it reports none, the
-- event was there, and it is resolved by the decision.
unfoldable pub IsDecided : String → String → Net → Option String × Net → Type 0
IsDecided event_id decision n (some error, n') = (n'.events ≡ n.events) × (n'.policies ≡ n.policies)
IsDecided event_id decision n (none, n') =
    (is_choice decision ≡ true)
    × ((event : Event) × (changed : Event) × (now : String) × (find_event event_id n.events
          ≡ some event)
        × (find_event event_id n'.events ≡ some changed)
        × IsResolved decision now event changed)

abbrev each : (Event → Event) → Option Event → Option Event
each f none = none
each f (some event) = some (f event)

pub drop_nothing :
    (events : List Event) → length events ≤ 80 → drop (length events - 80) events ≡ events
drop_nothing events h =
    let none_over : length events - 80 ≡ 0 = omega arith in ap (λ k. drop k events) none_over
