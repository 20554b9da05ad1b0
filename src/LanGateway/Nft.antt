-- ===== src/LanGateway/Nft.antt =====
-- The nftables file of the LAN gateway in runtime/proxy-stack/proxy_stack.py, and what root does with it.
pub mod Applied
use proxy_gateway_console_pu.Prelude.{
  ◌==◌, ◌<>◌, ◌&&◌, ◌||◌, not, Bool, true, false, if◌then◌else◌, some, none, Option, str_contains,
  [], ◌∷◌, List, String,
}
use proxy_gateway_console_pu.Outcome.{Outcome, ok, raised, Exception, value_error}
use proxy_gateway_console_pu.NetworkEvents.{Ran, or_else}
use proxy_gateway_console_pu.LanGateway.{
  Machine, Gate, Marker, Plan, is_ok, run, lan_gateway_plan, validate_single_ipv4,
  validate_interface_name,
}

abbrev pub match_client : String → String → String
match_client interface client_ip = "    iifname \"" <> interface <> "\" ip saddr " <> client_ip

unfoldable pub nft_text : String → String → String
nft_text interface client_ip =
    "table inet lan_gateway {\n  chain prerouting {\n    type nat hook prerouting priority dstnat; policy accept;\n\n"
    <> match_client interface client_ip
    <> " udp dport 53 redirect to :1053\n"
    <> match_client interface client_ip
    <> " tcp dport 53 redirect to :1053\n\n"
    <> match_client interface client_ip
    <> " tcp dport { 22, 4077, 18180, 18181, 12345, 1053 } accept\n"
    <> match_client interface client_ip
    <> " meta l4proto tcp redirect to :12345\n"
    <> "  }\n\n  chain postrouting {\n    type nat hook postrouting priority srcnat; policy accept;\n\n"
    <> "    ip saddr "
    <> client_ip
    <> " oifname \""
    <> interface
    <> "\" masquerade\n"
    <> "  }\n\n  chain forward_guard {\n    type filter hook forward priority -20; policy accept;\n\n"
    <> match_client interface client_ip
    <> " udp dport 443 reject\n  }\n}\n"

module _ (w : Machine) where
  unfoldable pub render_lan_gateway_nft : Plan → Outcome String
  render_lan_gateway_nft plan =
      let client_ip = validate_single_ipv4 w plan.client_ip in
      let interface = validate_interface_name plan.interface in
      if client_ip == "" || interface == ""
      then raised
          (value_error "lan gateway nft requires a single IPv4 client and safe interface name")
      else ok (nft_text interface client_ip)

  abbrev pub nft_path : String
  nft_path = "lan_gateway.nft"

  abbrev pub marker_of : Plan → Marker
  marker_of plan = record {
    enabled = true;
    client_ip = plan.client_ip;
    server = plan.server;
    interface = plan.interface;
    gateway = plan.gateway;
  }

  -- `delete_result` is no reason to fail when there was no table.
  unfoldable pub delete_ok : Ran → Bool
  delete_ok result = result.ok || str_contains (or_else result.stderr result.stdout) "No such file"

  -- From the check of the file on.
  unfoldable pub load_rules : Plan → Gate → Option String × Gate
  load_rules plan g =
      let (check, g1) = run w ("nft" ∷ "-c" ∷ "-f" ∷ nft_path ∷ []) g in
      let (forward, g2) = run w ("sysctl" ∷ "-w" ∷ "net.ipv4.ip_forward=1" ∷ []) g1 in
      let (delete, g3) = run w ("nft" ∷ "delete" ∷ "table" ∷ "inet" ∷ "lan_gateway" ∷ []) g2 in
      let (load, g4) = run w ("nft" ∷ "-f" ∷ nft_path ∷ []) g3 in
      if not check.ok
      then (some "nft_check_failed", g1)
      else if forward.ok && load.ok && delete_ok delete
      then (none, record g4 { marker = marker_of plan })
      else (some "", g4)

  abbrev pub write_rules : Plan → Outcome String → Gate → Option String × Gate
  write_rules plan (raised e) g =
      (some "lan gateway nft requires a single IPv4 client and safe interface name", g)
  write_rules plan (ok text) g = load_rules plan (record g { nft_file = some text })

  -- The error, "" where the result is only not ok, or none.
  unfoldable pub lan_gateway_root_apply : String → Gate → Option String × Gate
  lan_gateway_root_apply client_ip g =
      let (plan, g') = lan_gateway_plan w client_ip g in
      if not w.is_root
      then (some "root_required", g)
      else if not (is_ok plan)
      then (some "plan_not_ready", g')
      else write_rules plan (render_lan_gateway_nft plan) g'

  -- Whether it is ok.
  unfoldable pub lan_gateway_root_remove : Gate → Bool × Gate
  lan_gateway_root_remove g =
      let (result, g') = run w ("nft" ∷ "delete" ∷ "table" ∷ "inet" ∷ "lan_gateway" ∷ []) g in
      if not w.is_root
      then (false, g)
      else if delete_ok result
      then (
        true,
        record g' {
          marker = record {
            enabled = false;
            client_ip = "";
            server = "";
            interface = "";
            gateway = "";
          };
        },
      )
      else (false, g')
