-- ===== src/Tests/Lan.antt =====
-- The theorems on the LAN gateway, at concrete data.
use proxy_gateway_console_pu.Prelude.{
  strip, lstrip, rstrip, split_at, words, ◌≡◌, ◌↔◌, refl, [], ◌∷◌, true, false, some, none,
}
use proxy_gateway_console_pu.NetworkEvents.{first_line, first_of, parse_route_interface, after_dev}
use proxy_gateway_console_pu.LanGateway.{
  lan_gateway_plan, run, parse_route_source, parse_route_gateway, after_word,
  lan_cidr_for_interface, first_network, lan_gateway_nft_state, plan_errors,
  validate_interface_name, all_chars, is_name_char, validate_single_ipv4, is_ok, is_stale, Machine,
  Gate, nft_state,
}
use proxy_gateway_console_pu.LanGateway.Nft.{
  lan_gateway_root_apply, render_lan_gateway_nft, nft_text, load_rules, delete_ok,
}
use proxy_gateway_console_pu.LanGateway.Coverage.{Status, missing, lan_gateway_coverage_report}
use proxy_gateway_console_pu.LanGateway.Coverage.Proven.{IsProven, lan_gateway_coverage_report_iff}

-- A host at 192.168.1.2 whose commands all succeed.
abbrev machine : Machine
machine = record {
  is_root = true;
  answer = λ ran command. record {
    ok = true;
    stdout = "8.8.8.8 via 192.168.1.1 dev wlan0 src 192.168.1.2/24";
    stderr = "";
  };
  inferred = λ server. "192.168.1.9";
  ipv4_text = λ text. some text;
  interface_network = λ token. some "192.168.1.0/24";
  in_network = λ address network. some true;
}

abbrev gate : Gate
gate = record {
  nft_file = none;
  marker = record { enabled = false; client_ip = ""; server = ""; interface = ""; gateway = "" };
  ran = [];
}

-- The plan of that host is ready, so that the rules are loaded.
applied_without_error : (lan_gateway_root_apply machine "192.168.1.7" gate).0 ≡ none
unfolding lan_gateway_root_apply lan_gateway_plan run first_line first_of strip lstrip rstrip
    split_at parse_route_interface after_dev words parse_route_source parse_route_gateway after_word
    lan_cidr_for_interface first_network lan_gateway_nft_state plan_errors validate_interface_name
    all_chars is_name_char validate_single_ipv4 is_ok render_lan_gateway_nft nft_text load_rules
    delete_ok is_stale
applied_without_error = refl

abbrev status : Status
status = record {
  enabled = true;
  nft = nft_state "loaded" "ip saddr 192.168.1.7 udp dport 53 redirect to :1053";
  client_ip = "192.168.1.7";
  marker_stale = false;
  ip_forward = true;
  split_dns_open = true;
  split_tcp_open = true;
  recent_clients = "192.168.1.7" ∷ [];
  domestic = "direct";
  foreign = "proxy";
}

lan_gateway_coverage_report_iff_example :
    ((lan_gateway_coverage_report status missing).0 ≡ "pass") ↔ IsProven status
lan_gateway_coverage_report_iff_example = lan_gateway_coverage_report_iff status missing refl
