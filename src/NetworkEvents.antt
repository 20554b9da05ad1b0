-- ===== src/NetworkEvents.antt =====
-- USB phone networks in runtime/proxy-stack/proxy_stack.py: the interfaces found, the policies saved for
-- them, and the store of events that asks the user about them.
pub mod Pending
pub mod Asked
pub mod Store
pub mod Invariant
pub mod Decision
pub mod Scan
pub mod Egress
pub mod Select
use proxy_gateway_console_pu.Prelude.{
  ◌==◌, ◌<>◌, ◌&&◌, ◌||◌, not, any, Bool, true, false, if◌then◌else◌, some, none, Option, length,
  drop, strip, is_space, split_at, words, refl, ◌≡◌, ◌+◌, ◌-◌, ◌++◌, [], ◌∷◌, List, String, Char, ℕ,
  show_ℕ, code, ◌=?◌,
}

-- What `run` reports of a command.
pub record Ran : Type 0 where
  pub ok : Bool
  pub stdout : String
  pub stderr : String

-- An event of the store. `type` is a reserved word of no use here, so the field is `kind`.
pub record Event : Type 0 where
  pub id : String
  pub kind : String
  pub status : String
  pub interface : String
  pub connection : String
  pub driver : String
  pub connection_known : Bool
  pub carrier : Bool
  pub operstate : String
  pub present : Bool
  pub created_at : String
  pub updated_at : String
  pub observed_count : ℕ
  pub dispatcher_action : String
  pub default_route : String
  pub default_route_interface : String
  pub decision : Option String
  pub resolved_at : Option String

-- The files that this part keeps, and the commands that were run.
pub record Net : Type 0 where
  pub events : List Event
  pub policies : List (String × String)
  pub ran : List (List String)

-- What `ipaddress.ip_interface` reads: the address, its network, and the network's first host.
pub record IpInterface : Type 0 where
  pub ip : String
  pub network : String
  pub first_host : String

-- The clock, the commands, /sys/class/net, and `ip_interface`, which gives none where it raises.
pub record System : Type 0 where
  pub now : List (List String) → String
  pub millis : List (List String) → ℕ
  pub answer : List (List String) → List String → Ran
  pub interfaces : Option (List String)
  pub driver_of : String → String
  pub carrier_of : String → Bool
  pub operstate_of : String → String
  pub ip_interface : String → Option IpInterface

pub record Plan : Type 0 where
  pub interface : String
  pub connection : String
  pub driver : String
  pub matched : Bool
  pub saved_policy : String
  pub carrier : Bool
  pub operstate : String
  pub connection_known : Bool

unfoldable pub is_known_policy : String → Bool
is_known_policy value = value == "prompt" || value == "keep-current" || value == "use-phone-port"

unfoldable pub is_phone_driver : String → Bool
is_phone_driver driver =
    driver == "ipheth" || driver == "rndis_host" || driver == "cdc_ether" || driver == "cdc_ncm"

-- PHONE_TETHER_DEMOTE_POLICY, each key with its value after it
abbrev pub demote_policy : List String
demote_policy =
    "ipv4.never-default" ∷ "yes" ∷ "ipv6.never-default" ∷ "yes" ∷ "ipv4.route-metric" ∷ "9000"
    ∷ "ipv6.route-metric" ∷ "9000" ∷ []

unfoldable pub phone_tether_policy_key : String → String → String → String
phone_tether_policy_key interface connection driver =
    driver <> ":" <> interface <> ":" <> connection

unfoldable pub policy_at : String → List (String × String) → String
policy_at key [] = "prompt"
policy_at key ((k, value) ∷ rest) = if k == key then value else policy_at key rest

unfoldable pub policy_set : String → String → List (String × String) → List (String × String)
policy_set key value [] = (key, value) ∷ []
policy_set key value ((k, old) ∷ rest) =
    if k == key then (key, value) ∷ rest else (k, old) ∷ policy_set key value rest

unfoldable pub saved_phone_tether_policy : String → String → String → Net → String
saved_phone_tether_policy interface connection driver n =
    let value = policy_at (phone_tether_policy_key interface connection driver) n.policies in
    if is_known_policy value then value else "prompt"

unfoldable pub save_phone_tether_policy : String → String → String → String → Net → Net
save_phone_tether_policy interface connection driver value n = record n {
  policies = policy_set (phone_tether_policy_key interface connection driver) value n.policies;
}

-- events[-80:]
unfoldable pub write_network_event_store : List Event → Net → Net
write_network_event_store events n = record n { events = drop (length events - 80) events }

unfoldable pub first_of : List String → String
first_of [] = ""
first_of (line ∷ lines) =
    let rest = first_of lines in if strip is_space line == "" then rest else strip is_space line

-- `first_line`, of a text whose lines end with a newline
unfoldable pub first_line : String → String
first_line text = first_of (split_at b'\n' text)

unfoldable pub after_dev : List String → String
after_dev [] = ""
after_dev (part ∷ []) = ""
after_dev (part ∷ next ∷ rest) =
    let later = after_dev (next ∷ rest) in if part == "dev" then next else later

unfoldable pub parse_route_interface : String → String
parse_route_interface text = after_dev (words text)

-- text.replace("\\:", ":")
unfoldable pub unescaped : String → String
unescaped String.[] = ""
unescaped (String.◌∷◌ c String.[]) = String.◌∷◌ c ""
unescaped (String.◌∷◌ c (String.◌∷◌ d rest)) =
    let kept = String.◌∷◌ c (unescaped (String.◌∷◌ d rest)) in
    let short = String.◌∷◌ d (unescaped rest) in
    if code c =? b'\\' && code d =? b':' then short else kept

module _ (w : System) where
  unfoldable pub run : List String → Net → Ran × Net
  run args n = (w.answer n.ran args, record n { ran = n.ran ++ args ∷ [] })

  unfoldable pub nmcli_device_connection : String → Net → String × Net
  nmcli_device_connection interface n =
      let (result, n') =
        run ("nmcli" ∷ "-g" ∷ "GENERAL.CONNECTION" ∷ "device" ∷ "show" ∷ interface ∷ []) n in
      let connection = unescaped (first_line result.stdout) in
      ((if not result.ok then "" else if connection == "--" then "" else connection), n')

  unfoldable pub default_route_probe : Net → (String × String) × Net
  default_route_probe n =
      let (result, n') = run ("ip" ∷ "route" ∷ "get" ∷ "8.8.8.8" ∷ []) n in
      let route = first_line result.stdout in ((route, parse_route_interface route), n')

  unfoldable pub phone_tether_plan : String → String → Net → Plan
  phone_tether_plan interface connection n =
      let driver = w.driver_of interface in
      let matched = is_phone_driver driver in
      record {
        interface = interface;
        connection = connection;
        driver = driver;
        matched = matched;
        saved_policy =
            if matched then saved_phone_tether_policy interface connection driver n else "prompt";
        carrier = w.carrier_of interface;
        operstate = w.operstate_of interface;
        connection_known = not (connection == "");
      }

  unfoldable pub plans_of : List String → Net → List Plan × Net
  plans_of [] n = ([], n)
  plans_of (interface ∷ interfaces) n =
      let (connection, n') = nmcli_device_connection interface n in
      let (plans, n'') = plans_of interfaces n' in
      let others = plans_of interfaces n in
      if is_phone_driver (w.driver_of interface)
      then (phone_tether_plan interface connection n' ∷ plans, n'')
      else others

  unfoldable pub discover_phone_tether_plans : Net → List Plan × Net
  discover_phone_tether_plans n = elim w.interfaces [
    | some interfaces ↦ plans_of interfaces n
    | none ↦ ([], n)
  ]

unfoldable pub phone_event_matches_plan : Plan → Event → Bool
phone_event_matches_plan plan event =
    event.kind == "phone_tether_detected"
    && event.interface == plan.interface
    && event.driver == plan.driver
    && (event.connection == plan.connection || event.connection == "" || plan.connection == "")

unfoldable pub is_final_once : Option String → Bool
is_final_once none = false
is_final_once (some decision) =
    decision == "ignore-once" || decision == "keep-current" || decision == "use-phone-once"

unfoldable pub resolved_phone_event_suppresses_plan : List Event → Plan → Bool
resolved_phone_event_suppresses_plan events plan =
    any
      (λ event.
        phone_event_matches_plan plan event
        && event.status == "resolved"
        && event.present
        && is_final_once event.decision)
      events

abbrev pub same_bool : Bool → Bool → Bool
same_bool true b = b
same_bool false b = not b

-- One turn of the loop of `mark_phone_event_presence`.
unfoldable pub mark_event : List Plan → Event → Event × Bool
mark_event plans event =
    let present = any (λ plan. phone_event_matches_plan plan event) plans in
    if not (event.kind == "phone_tether_detected")
    then (event, false)
    else if same_bool event.present present
    then (event, false)
    else (record event { present = present }, true)

unfoldable pub mark_phone_event_presence : List Plan → List Event → List Event × Bool
mark_phone_event_presence plans [] = ([], false)
mark_phone_event_presence plans (event ∷ events) =
    let (marked, changed) = mark_event plans event in
    let (rest, others) = mark_phone_event_presence plans events in
    (marked ∷ rest, changed || others)

-- The condition under which a sighting is that of a pending event.
unfoldable pub awaits : Plan → Event → Bool
awaits plan event =
    event.status == "pending"
    && event.kind == "phone_tether_detected"
    && event.interface == plan.interface
    && (event.connection == plan.connection || event.connection == "" || plan.connection == "")

abbrev pub or_else : String → String → String
or_else a b = if a == "" then b else a

abbrev pub also : Event → Option (List Event) → Option (List Event)
also event none = none
also event (some events) = some (event ∷ events)

module _ (plan : Plan) (action now : String) (route : String × String) where
  unfoldable pub seen_again : Event → Event
  seen_again event =
      let connection = or_else plan.connection event.connection in
      record event {
        updated_at = now;
        observed_count = event.observed_count + 1;
        dispatcher_action = action;
        connection = connection;
        connection_known = not (connection == "");
        carrier = plan.carrier;
        operstate = plan.operstate;
        present = true;
        default_route = if route.0 == "" then event.default_route else route.0;
        default_route_interface = if route.0 == "" then event.default_route_interface else route.1;
      }

  -- The loop over the events, which stops at the first that awaits the plan.
  unfoldable pub observe : List Event → Option (List Event)
  observe [] = none
  observe (event ∷ events) =
      let rest = also event (observe events) in
      if awaits plan event then some (seen_again event ∷ events) else rest

  unfoldable pub new_event : ℕ → Event
  new_event millis = record {
    id = show_ℕ millis <> "-" <> plan.interface;
    kind = "phone_tether_detected";
    status = "pending";
    interface = plan.interface;
    connection = plan.connection;
    driver = plan.driver;
    connection_known = not (plan.connection == "");
    carrier = plan.carrier;
    operstate = plan.operstate;
    present = true;
    created_at = now;
    updated_at = now;
    observed_count = 1;
    dispatcher_action = action;
    default_route = route.0;
    default_route_interface = route.1;
    decision = none;
    resolved_at = none;
  }

  -- The events after a sighting.
  unfoldable pub recorded : ℕ → List Event → List Event
  recorded millis events = elim (observe events) [
    | some updated ↦ updated
    | none ↦ events ++ new_event millis ∷ []
  ]

unfoldable pub record_phone_tether_event : System → Plan → String → Net → Net
record_phone_tether_event w plan action n =
    let (route, n') = default_route_probe w n in
    write_network_event_store
      (recorded plan action (w.now n'.ran) route (w.millis n'.ran) n'.events) n'
