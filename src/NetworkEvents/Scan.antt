-- ===== src/NetworkEvents/Scan.antt =====
-- The scan for USB phone networks in runtime/proxy-stack/proxy_stack.py, and its dispatcher hook.
use proxy_gateway_console_pu.Prelude.{
  ◌==◌, ◌&&◌, not, Bool, true, false, if◌then◌else◌, select, [], ◌∷◌, List, String,
}
use proxy_gateway_console_pu.NetworkEvents.{
  Net, System, Event, Plan, Ran, run, demote_policy, phone_tether_plan, record_phone_tether_event,
  discover_phone_tether_plans, mark_phone_event_presence, resolved_phone_event_suppresses_plan,
  write_network_event_store,
}

unfoldable pub apply_connection_policy : System → String → Net → Ran × Net
apply_connection_policy w connection n =
    run w ("nmcli" ∷ "connection" ∷ "modify" ∷ connection ∷ demote_policy) n

-- What `phone_tether_guard_apply` reports, and what it leaves.
unfoldable pub phone_tether_guard_apply : System → String → String → Net → (Bool × Bool) × Net
phone_tether_guard_apply w interface connection n =
    let plan = phone_tether_plan w interface connection n in
    let asked =
      if plan.saved_policy == "prompt" then record_phone_tether_event w plan "" n else n in
    let (result, n') = apply_connection_policy w connection asked in
    if not plan.matched then ((true, false), n) else ((result.ok, result.ok), n')

-- The loop over the plans of `network_events_json`.
unfoldable pub ask_all : System → List Plan → Net → Net
ask_all w [] n = n
ask_all w (plan ∷ plans) n =
    let asks =
      plan.saved_policy == "prompt" && not (resolved_phone_event_suppresses_plan n.events plan) in
    ask_all w plans (if asks then record_phone_tether_event w plan "scan" n else n)

-- The events, and those that wait.
unfoldable pub network_events_json : System → Net → (List Event × List Event) × Net
network_events_json w n =
    let (plans, n') = discover_phone_tether_plans w n in
    let (marked, changed) = mark_phone_event_presence plans n'.events in
    let n'' = ask_all w plans (if changed then write_network_event_store marked n' else n') in
    ((n''.events, select (λ event. event.status == "pending") n''.events), n'')
