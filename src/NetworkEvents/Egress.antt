-- ===== src/NetworkEvents/Egress.antt =====
-- The route of the phone egress proxy in runtime/proxy-stack/proxy_stack.py: a routing table that only
-- the phone's own address uses.
pub mod Table
use proxy_gateway_console_pu.Prelude.{
  ◌==◌, ◌<>◌, ◌&&◌, ◌||◌, not, any, all, Bool, true, false, if◌then◌else◌, some, none, Option,
  is_space, strip, before, after, str_contains, split_at, map, ◌++◌, [], ◌∷◌, List, String,
}
use proxy_gateway_console_pu.Outcome.{Outcome, ok, raised}
use proxy_gateway_console_pu.NetworkEvents.{
  Net, System, Event, Plan, Ran, run, first_of, first_line, or_else, discover_phone_tether_plans,
  IpInterface,
}
use proxy_gateway_console_pu.NetworkEvents.Scan.{network_events_json}

abbrev pub egress_table : String
egress_table = "18190"

-- PHONE_EGRESS_PRIORITY
abbrev pub egress_priority : String
egress_priority = "18190"

pub record EgressPlan : Type 0 where
  pub interface : String
  pub connection : String
  pub source_ip : String
  pub network : String
  pub gateway : String

-- A plan with "ok", or the error of one without.
pub data Planned : Type 0 where
  planned : EgressPlan → Planned
  refused : String → Planned

abbrev pub value_of : String → String → Option String → List String → List String
value_of key line none values = values
value_of key line (some value) values =
    if strip is_space (before b':' line) == key then strip is_space value ∷ values else values

-- fields.get(key, []), of the fields of `parse_nmcli_colon_fields`
unfoldable pub fields_at : String → List String → List String
fields_at key [] = []
fields_at key (line ∷ lines) = value_of key line (after b':' line) (fields_at key lines)

abbrev pub field : String → String → String
field key text = first_of (fields_at key (split_at b'\n' text))

abbrev pub no_dashes : String → String
no_dashes gateway = if gateway == "--" then "" else gateway

unfoldable pub gateway_of : String → IpInterface → String
gateway_of text ip4 =
    or_else (no_dashes (field "IP4.GATEWAY" text))
      (or_else (field "IP4.DNS[1]" text) ip4.first_host)

abbrev pub with_ip4 : String → String → String → Option IpInterface → Planned
with_ip4 interface connection text none = refused "invalid_ipv4_address"
with_ip4 interface connection text (some ip4) =
    if gateway_of text ip4 == ""
    then refused "missing_ipv4_gateway"
    else planned (record {
      interface = interface;
      connection = connection;
      source_ip = ip4.ip;
      network = ip4.network;
      gateway = gateway_of text ip4;
    })

module _ (w : System) where
  unfoldable pub phone_egress_plan : String → String → Net → Planned × Net
  phone_egress_plan interface connection n =
      let (result, n') = run w ("nmcli" ∷ "-f" ∷ "IP4" ∷ "device" ∷ "show" ∷ interface ∷ []) n in
      let address = field "IP4.ADDRESS[1]" result.stdout in
      let made = with_ip4 interface connection result.stdout (w.ip_interface address) in
      (
        (if not result.ok
            then refused "device_ip4_unavailable"
            else if address == ""
            then refused "missing_ipv4_address"
            else made),
        n',
      )

  unfoldable pub first_ready : List (String × String × Bool) → Option (String × String)
  first_ready [] = none
  first_ready ((interface, connection, ready) ∷ rest) =
      let later = first_ready rest in if ready then some (interface, connection) else later

  abbrev plan_link : Plan → String × String × Bool
  plan_link plan = (plan.interface, plan.connection, plan.connection_known && plan.carrier)

  abbrev event_link : Event → String × String × Bool
  event_link event = (event.interface, event.connection, event.connection_known && event.carrier)

  abbrev from_events : Option (String × String) → Net → Planned × Net
  from_events none n = (refused "no_ready_phone_tether_event", n)
  from_events (some (interface, connection)) n = phone_egress_plan interface connection n

  abbrev from_plans : Option (String × String) → Net → Planned × Net
  from_plans none n =
      let (seen, n') = network_events_json w n in
      from_events (first_ready (map event_link seen.1)) n'
  from_plans (some (interface, connection)) n = phone_egress_plan interface connection n

  unfoldable pub current_phone_egress_plan : Net → Planned × Net
  current_phone_egress_plan n =
      let (plans, n') = discover_phone_tether_plans w n in
      from_plans (first_ready (map plan_link plans)) n'

  -- [run(command) for command in commands]
  unfoldable pub run_each : List (List String) → Net → List Ran × Net
  run_each [] n = ([], n)
  run_each (command ∷ commands) n =
      let (result, n') = run w command n in
      let (results, n'') = run_each commands n' in (result ∷ results, n'')

  abbrev pub route_commands : EgressPlan → List (List String)
  route_commands plan =
      ("ip" ∷ "route" ∷ "replace" ∷ plan.network ∷ "dev" ∷ plan.interface ∷ "src" ∷ plan.source_ip
        ∷ "table" ∷ egress_table ∷ [])
      ∷ ("ip" ∷ "route" ∷ "replace" ∷ "default" ∷ "via" ∷ plan.gateway ∷ "dev" ∷ plan.interface
          ∷ "table" ∷ egress_table ∷ [])
      ∷ []

  abbrev pub rule_command : EgressPlan → List String
  rule_command plan =
      "ip"
      ∷ "rule"
      ∷ "add"
      ∷ "from"
      ∷ (plan.source_ip <> "/32")
      ∷ "table"
      ∷ egress_table
      ∷ "priority"
      ∷ egress_priority
      ∷ []

  -- The rule is added unless `ip rule show` has it.
  unfoldable pub apply_commands : EgressPlan → String → List (List String)
  apply_commands plan rules =
      if not (str_contains rules (plan.source_ip <> "/32"))
        || not (str_contains rules ("lookup " <> egress_table))
      then route_commands plan ++ rule_command plan ∷ []
      else route_commands plan

  -- Whether it is ok.
  unfoldable pub phone_egress_root_apply_from_plan : Planned → Net → Bool × Net
  phone_egress_root_apply_from_plan (refused error) n = (false, n)
  phone_egress_root_apply_from_plan (planned plan) n =
      let (rules, n') = run w ("ip" ∷ "rule" ∷ "show" ∷ []) n in
      let (results, n'') = run_each (apply_commands plan rules.stdout) n' in
      (all (λ result. result.ok) results, n'')

  abbrev pub remove_commands : EgressPlan → List (List String)
  remove_commands plan =
      ("ip"
        ∷ "rule"
        ∷ "del"
        ∷ "from"
        ∷ (plan.source_ip <> "/32")
        ∷ "table"
        ∷ egress_table
        ∷ "priority"
        ∷ egress_priority
        ∷ [])
      ∷ ("ip" ∷ "route" ∷ "flush" ∷ "table" ∷ egress_table ∷ [])
      ∷ []

  unfoldable pub phone_egress_root_remove_from_plan : Planned → Net → Bool × Net
  phone_egress_root_remove_from_plan (refused error) n = (false, n)
  phone_egress_root_remove_from_plan (planned plan) n =
      let (results, n') = run_each (remove_commands plan) n in
      (
        all
            (λ result.
              result.ok
              || str_contains result.stderr "No such"
              || str_contains result.stderr "FIB table does not exist")
            results,
        n',
      )

  unfoldable pub phone_egress_root_apply : Net → Bool × Net
  phone_egress_root_apply n =
      let (plan, n') = current_phone_egress_plan n in phone_egress_root_apply_from_plan plan n'

  unfoldable pub phone_egress_root_remove : Net → Bool × Net
  phone_egress_root_remove n =
      let (plan, n') = current_phone_egress_plan n in phone_egress_root_remove_from_plan plan n'
