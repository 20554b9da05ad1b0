-- ===== src/NetworkEvents/Select.antt =====
-- The operations on the events of USB phone networks in runtime/proxy-stack/proxy_stack.py.

use proxy_gateway_console_pu.Prelude.{
  ◌==◌, ◌<>◌, ◌&&◌, ◌||◌, not, Bool, true, if◌then◌else◌, some, none, Option, [], ◌∷◌, List, String,
}
use proxy_gateway_console_pu.NetworkEvents.{
  Net, System, Event, write_network_event_store, save_phone_tether_policy,
}
use proxy_gateway_console_pu.NetworkEvents.Scan.{apply_connection_policy}
use proxy_gateway_console_pu.NetworkEvents.Egress.{phone_egress_plan}

unfoldable pub find_event : String → List Event → Option Event
find_event event_id [] = none
find_event event_id (event ∷ events) =
    let later = find_event event_id events in if event.id == event_id then some event else later

abbrev pub resolved_event : String → String → Event → Event
resolved_event decision now event = record event {
  status = "resolved";
  decision = some decision;
  present = true;
  resolved_at = some now;
}

-- `update_event`, for the updates of `upstream_select`
unfoldable pub resolve_event : String → String → String → List Event → List Event
resolve_event event_id decision now [] = []
resolve_event event_id decision now (event ∷ events) =
    let others = resolve_event event_id decision now events in
    if event.id == event_id then resolved_event decision now event ∷ events else event ∷ others

unfoldable pub is_choice : String → Bool
is_choice decision =
    decision == "keep-current"
    || decision == "use-phone-once"
    || decision == "ignore-once"
    || decision == "always-keep-current"
    || decision == "always-use-phone"

abbrev pub uses_phone : String → Bool
uses_phone decision = decision == "use-phone-once" || decision == "always-use-phone"

unfoldable pub changes_policy : String → Bool
changes_policy decision =
    decision == "keep-current" || decision == "always-keep-current" || uses_phone decision

-- The policy that the decision saves for the link.
unfoldable pub save_choice : Event → String → Net → Net
save_choice event decision n =
    if decision == "always-keep-current"
    then save_phone_tether_policy event.interface event.connection event.driver "keep-current" n
    else if decision == "always-use-phone"
    then save_phone_tether_policy event.interface event.connection event.driver "use-phone-port" n
    else n

-- The end of `upstream_select`.
unfoldable pub finish : System → Event → String → String → Net → Option String × Net
finish w event event_id decision n =
    let saved = save_choice event decision n in
    let planned =
      if uses_phone decision
      then (phone_egress_plan w event.interface event.connection saved).1
      else saved in
    (
      none,
      write_network_event_store (resolve_event event_id decision (w.now planned.ran) planned.events)
          planned,
    )

unfoldable pub select_event : System → Event → String → String → Net → Option String × Net
select_event w event event_id decision n =
    let (result, n') = apply_connection_policy w event.connection n in
    if not (event.kind == "phone_tether_detected")
    then (some ("unsupported event type: " <> event.kind), n)
    else if event.connection == "" && uses_phone decision
    then (some "phone_link_not_ready", n)
    else if event.connection == "" || not (changes_policy decision)
    then finish w event event_id decision n
    else if not result.ok
    then (some "failed to apply NetworkManager policy", n')
    else finish w event event_id decision n'

-- The error, or none when the decision was taken.
unfoldable pub upstream_select : System → String → String → Net → Option String × Net
upstream_select w event_id decision n =
    if not (is_choice decision)
    then (some ("unknown decision: " <> decision), n)
    else elim (find_event event_id n.events) [
      | none ↦ (some ("unknown event: " <> event_id), n)
      | some event ↦ select_event w event event_id decision n
    ]
