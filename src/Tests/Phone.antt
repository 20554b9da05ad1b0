-- ===== src/Tests/Phone.antt =====
-- The theorems on the USB phone networks and on the proxy for them, at concrete data.
use proxy_gateway_console_pu.NetworkEvents.Asked.{Asks, record_phone_tether_event-Asks}
use proxy_gateway_console_pu.NetworkEvents.{Plan, record_phone_tether_event, Net, System, Event}
use proxy_gateway_console_pu.Prelude.{
  false, ◌==◌, if◌then◌else◌, not, ◌≡◌, refl, ◌++◌, [], ◌∷◌, List, String, true, some, none, All,
  arith,
}
use proxy_gateway_console_pu.PhoneEgress.{World, handle, inet, inet6}
use proxy_gateway_console_pu.Outcome.{ok, raised, value_error}
use proxy_gateway_console_pu.PhoneEgress.Bound.{Bound, handle-Bound}
use proxy_gateway_console_pu.NetworkEvents.Pending.{NoClash, clash}
use proxy_gateway_console_pu.NetworkEvents.Store.{IsStore}
use proxy_gateway_console_pu.NetworkEvents.Scan.{network_events_json, phone_tether_guard_apply}
use proxy_gateway_console_pu.NetworkEvents.Egress.{
  Planned, planned, phone_egress_root_apply_from_plan, phone_egress_root_remove_from_plan,
}
use proxy_gateway_console_pu.NetworkEvents.Egress.Table.{LeavesMain, phone_egress_root-LeavesMain}
use proxy_gateway_console_pu.NetworkEvents.Select.{upstream_select}
use proxy_gateway_console_pu.NetworkEvents.Invariant.{network_events-IsStore}

abbrev system : System
system = record {
  now = λ ran. "2026-01-01 00:00:00 +0000";
  millis = λ ran. 1000;
  answer = λ ran command. record { ok = true; stdout = "phone"; stderr = "" };
  interfaces = some ("usb0" ∷ "eth0" ∷ []);
  driver_of = λ interface. if interface == "usb0" then "ipheth" else "e1000";
  carrier_of = λ interface. true;
  operstate_of = λ interface. "up";
  ip_interface = λ text. none;
}

abbrev event_of : String → String → String → Event
event_of id interface connection = record {
  id = id;
  kind = "phone_tether_detected";
  status = "pending";
  interface = interface;
  connection = connection;
  driver = "ipheth";
  connection_known = not (connection == "");
  carrier = true;
  operstate = "up";
  present = true;
  created_at = "";
  updated_at = "";
  observed_count = 1;
  dispatcher_action = "";
  default_route = "";
  default_route_interface = "";
  decision = none;
  resolved_at = none;
}

-- Two links on one interface, and one of an unknown link on another.
abbrev store : Net
store = record {
  events = event_of "1" "usb0" "phone" ∷ event_of "2" "usb0" "tablet" ∷ event_of "3" "usb1" "" ∷ [];
  policies = [];
  ran = [];
}

store-IsStore : IsStore store
unfolding NoClash clash
store-IsStore = record {
  no_clash = ((refl, (refl, tt)), ((refl, tt), (tt, tt)));
  bounded = omega arith;
}

network_events-IsStore_example :
    IsStore (network_events_json system store).1
    × (IsStore (phone_tether_guard_apply system "usb0" "phone" store).1
        × IsStore (upstream_select system "usb0" "phone" store).1)
network_events-IsStore_example = network_events-IsStore system store "usb0" "phone" store-IsStore

abbrev plan : Planned
plan = planned (record {
  interface = "usb0";
  connection = "phone";
  source_ip = "172.20.10.2";
  network = "172.20.10.0/28";
  gateway = "172.20.10.1";
})

phone_egress_root-LeavesMain_example :
    ((commands : List (List String)) × All LeavesMain commands
      × ((phone_egress_root_apply_from_plan system plan store).1.ran ≡ store.ran ++ commands))
    × ((commands : List (List String)) × All LeavesMain commands
        × ((phone_egress_root_remove_from_plan system plan store).1.ran ≡ store.ran ++ commands))
phone_egress_root-LeavesMain_example = phone_egress_root-LeavesMain system plan store

abbrev phone : World
phone = record {
  source_ip = "172.20.10.2";
  source_version = ok 4;
  getaddrinfo = λ host port. ok ((inet6, "[2001:db8::1]:443") ∷ (inet, "192.0.2.1:443") ∷ []);
  answer = λ effects e. ok tt;
  client_chunks = ok "CONNECT example.org:443 HTTP/1.1\r\n\r\n" ∷ [];
  rounds = [];
  urlsplit = λ t. raised (value_error "not used");
  utf8_length = λ t. 7;
  to_ascii = λ t. t;
  str_of = λ e. "error";
}

handle-Bound_example :
    Bound phone.answer phone.source_ip (handle phone (record { trace = []; memory = tt })).1.trace
handle-Bound_example = handle-Bound phone

abbrev seen_link : Plan
seen_link = record {
  interface = "usb0";
  connection = "";
  driver = "ipheth";
  matched = true;
  saved_policy = "prompt";
  carrier = true;
  operstate = "up";
  connection_known = false;
}

record_phone_tether_event-Asks_example :
    Asks seen_link (record_phone_tether_event system seen_link "scan" store).events
record_phone_tether_event-Asks_example =
    record_phone_tether_event-Asks system seen_link "scan" store (omega arith)
