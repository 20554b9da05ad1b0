-- ===== src/LanGateway/Coverage.antt =====
-- The coverage report on the LAN gateway in runtime/proxy-stack/proxy_stack.py.
pub mod Proven
pub mod Checks
use proxy_gateway_console_pu.Prelude.{
  ◌==◌, ◌<>◌, ◌&&◌, ◌||◌, not, any, map, Bool, true, false, if◌then◌else◌, some, none, Option,
  str_contains, [], ◌∷◌, List, String,
}
use proxy_gateway_console_pu.LanGateway.{NftState}

-- What the report reads of the status: the plan, whether the ports 1053 and 12345 are open, the clients in
-- the logs, and the two decisions of the DNS.
pub record Status : Type 0 where
  pub enabled : Bool
  pub nft : NftState
  pub client_ip : String
  pub marker_stale : Bool
  pub ip_forward : Bool
  pub split_dns_open : Bool
  pub split_tcp_open : Bool
  pub recent_clients : List String
  pub domestic : String
  pub foreign : String

-- The generated file: missing, or readable or not.
pub data Generated : Type 0 where
  missing : Generated
  readable : String → Generated
  unreadable : String → Generated

-- The source of the rules and their text.
abbrev pub unverified : NftState → Generated → String × String
unverified nft missing = (nft.state, nft.detail)
unverified nft (readable text) = ("generated_file_unverified", text)
unverified nft (unreadable error) = ("generated_file_unreadable", error)

unfoldable pub lan_gateway_rule_text : NftState → Generated → String × String
lan_gateway_rule_text nft file =
    if nft.state == "loaded" && not (nft.detail == "")
    then ("nft", nft.detail)
    else if nft.state == "needs_root_check"
    then unverified nft file
    else (nft.state, nft.detail)

abbrev pub pass_or : String → Bool → String
pass_or other b = if b then "pass" else other

-- A redirect to a port, by whether the port is open and whether its rules are there and are proven.
unfoldable pub redirect_status : String → Bool → Bool → Bool → String
redirect_status state listens rules proven =
    if listens && (rules || state == "needs_root_check")
    then pass_or "warn" (rules && proven)
    else "fail"

unfoldable pub target_status : String → Bool → String
target_status state client_in_nft =
    if state == "loaded"
    then pass_or "fail" client_in_nft
    else if state == "needs_root_check"
    then "warn"
    else "fail"

unfoldable pub has_dns_rules : String → Bool
has_dns_rules text =
    str_contains text "udp dport 53 redirect to :1053"
    && str_contains text "tcp dport 53 redirect to :1053"

unfoldable pub has_ipv6_rule : String → Bool
has_ipv6_rule text = str_contains text " ip6 " || str_contains text "meta nfproto ipv6"

unfoldable pub coverage_checks : Status → String × String → List (String × String)
coverage_checks status (source, text) =
    let proven = source == "nft" in
    let client = status.client_ip in
    (
      "selected-client",
      if client == "" then "fail" else if status.marker_stale then "warn" else "pass",
    )
    ∷ (
      "nft-client-target",
      target_status status.nft.state (not (client == "") && str_contains text client),
    )
    ∷ ("ip-forward", pass_or "fail" status.ip_forward)
    ∷ (
      "dns-redirect",
      redirect_status status.nft.state status.split_dns_open (has_dns_rules text) proven,
    )
    ∷ (
      "tcp-redirect",
      redirect_status status.nft.state status.split_tcp_open
          (str_contains text "meta l4proto tcp redirect to :12345") proven,
    )
    ∷ ("udp-quic-policy", pass_or "warn" (str_contains text "udp dport 443 reject" && proven))
    ∷ ("ipv6-policy", pass_or "warn" (has_ipv6_rule text && proven))
    ∷ ("recent-client-evidence", pass_or "warn" (any (λ ip. ip == client) status.recent_clients))
    ∷ (
      "dns-decision-evidence",
      pass_or "warn" (not (status.domestic == "unknown") && not (status.foreign == "unknown")),
    )
    ∷ []

unfoldable pub overall_self_check_status : List (String × String) → String
overall_self_check_status checks =
    if any (λ check. check.1 == "fail") checks
    then "fail"
    else if any (λ check. check.1 == "warn") checks
    then "warn"
    else "pass"

-- The status of the report, and its checks.
unfoldable pub lan_gateway_coverage_report : Status → Generated → String × List (String × String)
lan_gateway_coverage_report status file =
    let checks = coverage_checks status (lan_gateway_rule_text status.nft file) in
    if not status.enabled then ("pass", []) else (overall_self_check_status checks, checks)
