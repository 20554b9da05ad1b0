-- ===== src/LanGateway/Coverage/Proven.antt =====
-- What a passing coverage report of runtime/proxy-stack/proxy_stack.py says.
use proxy_gateway_console_pu.Prelude.{
  ◌||◌, subst, and_true, ◌∙◌, sym, ap, inr, Bool-cases, inl, ◌==◌, ◌&&◌, not, any, Bool, true,
  false, ◌≡◌, ◌↔◌, refl, str_contains, String, eq_iff, arith,
}
use proxy_gateway_console_pu.LanGateway.{NftState}
use proxy_gateway_console_pu.LanGateway.Coverage.{
  Status, Generated, lan_gateway_coverage_report, lan_gateway_rule_text, coverage_checks,
  has_dns_rules, has_ipv6_rule,
}
use proxy_gateway_console_pu.LanGateway.Coverage.Checks.{
  overall_iff, true≢false, IsCovered, checks_iff,
}

-- The rules that nftables itself lists send the client's DNS, TCP, QUIC and IPv6 where they should.
pub record IsProven (status : Status) : Type 0 where
  pub loaded : (status.nft.state == "loaded") ≡ true
  pub client :
      ((not (status.client_ip == "")) && str_contains status.nft.detail status.client_ip) ≡ true
  pub current : status.marker_stale ≡ false
  pub forwards : status.ip_forward ≡ true
  pub listens : (status.split_dns_open && status.split_tcp_open) ≡ true
  pub dns :
      (str_contains status.nft.detail "udp dport 53 redirect to :1053"
        && str_contains status.nft.detail "tcp dport 53 redirect to :1053")
      ≡ true
  pub tcp : str_contains status.nft.detail "meta l4proto tcp redirect to :12345" ≡ true
  pub quic : str_contains status.nft.detail "udp dport 443 reject" ≡ true
  pub ipv6 :
      (str_contains status.nft.detail " ip6 " || str_contains status.nft.detail "meta nfproto ipv6")
      ≡ true
  pub seen : any (λ ip. ip == status.client_ip) status.recent_clients ≡ true
  pub decided : ((not (status.domestic == "unknown")) && (not (status.foreign == "unknown"))) ≡ true

-- The rules that are listed, when the table is loaded and lists some.
listed :
    (nft : NftState) (file : Generated)
    → (nft.state == "loaded") ≡ true
    → (nft.detail == "") ≡ false
    → lan_gateway_rule_text nft file ≡ ("nft", nft.detail)
unfolding lan_gateway_rule_text
listed nft file loaded some_text = rw (loaded, some_text) refl

-- Rules that are proven are those that are listed.
proven_listed :
    (nft : NftState) (file : Generated)
    → (nft.state == "loaded") ≡ true
    → ((lan_gateway_rule_text nft file).0 == "nft") ≡ true
    → (nft.detail == "") ≡ false
unfolding lan_gateway_rule_text
proven_listed nft file loaded proven = elim (Bool-cases (nft.detail == "")) [
  | inr some_text ↦ some_text
  | inl empty ↦
      absurd (true≢false (sym (rw (empty, loaded, (eq_iff nft.state "loaded").0 loaded) at proven)))
]

both : (a b : Bool) → a ≡ true → b ≡ true → (a && b) ≡ true
both a b h k = ground arith

covered-IsProven :
    (status : Status) (file : Generated) (text : String × String)
    → lan_gateway_rule_text status.nft file ≡ text
    → IsCovered status text.0 text.1
    → IsProven status
unfolding has_dns_rules has_ipv6_rule
covered-IsProven status file (source, text) same h =
    let (quic, proven) = and_true _ _ h.quic in
    let some_text = proven_listed status.nft file h.target.0 (rw same proven) in
    let found : text ≡ status.nft.detail =
      ap (λ p. p.1) (sym same ∙ listed status.nft file h.target.0 some_text) in
    let (dns_open, dns) = and_true status.split_dns_open _ h.dns in
    let (tcp_open, tcp) = and_true status.split_tcp_open _ h.tcp in
    record {
      loaded = h.target.0;
      client =
          subst (λ t. (not (status.client_ip == "") && str_contains t status.client_ip) ≡ true)
            found h.target.1;
      current = h.selected.1;
      forwards = h.forwards;
      listens = both _ _ dns_open tcp_open;
      dns =
          subst (λ t. has_dns_rules t ≡ true) found
            (and_true (has_dns_rules text) (source == "nft") dns).0;
      tcp =
          subst (λ t. str_contains t "meta l4proto tcp redirect to :12345" ≡ true) found
            (and_true (str_contains text "meta l4proto tcp redirect to :12345") (source == "nft")
              tcp).0;
      quic = subst (λ t. str_contains t "udp dport 443 reject" ≡ true) found quic;
      ipv6 = subst (λ t. has_ipv6_rule t ≡ true) found (and_true _ _ h.ipv6).0;
      seen = h.seen;
      decided = h.decided;
    }

-- A text with the rule against QUIC is not empty.
not_empty : (text : String) → str_contains text "udp dport 443 reject" ≡ true → (text == "") ≡ false
not_empty text has = elim (Bool-cases (text == "")) [
  | inr h ↦ h
  | inl h ↦ absurd (true≢false (sym (rw ((eq_iff text "").0 h) at has)))
]

not-true : (b : Bool) → not b ≡ true → b ≡ false
not-true b h = ground arith

proven-IsCovered : (status : Status) → IsProven status → IsCovered status "nft" status.nft.detail
unfolding has_dns_rules has_ipv6_rule
proven-IsCovered status h =
    let (client, inside) = and_true (not (status.client_ip == "")) _ h.client in
    let (dns_open, tcp_open) = and_true _ _ h.listens in
    record {
      selected = (not-true _ client, h.current);
      target = (h.loaded, h.client);
      forwards = h.forwards;
      dns = both _ _ dns_open (both _ _ h.dns refl);
      tcp = both _ _ tcp_open (both _ _ h.tcp refl);
      quic = both _ _ h.quic refl;
      ipv6 = both _ _ h.ipv6 refl;
      seen = h.seen;
      decided = h.decided;
    }

-- For an enabled gateway, the report passes exactly if nftables lists a loaded table whose rules name the
-- client, redirect DNS and TCP, reject QUIC and have an IPv6 policy, and the client, the forwarding, the
-- ports, the logs and the DNS are as they should be; the generated file counts for nothing.
pub lan_gateway_coverage_report_iff :
    (status : Status) (file : Generated)
    → status.enabled ≡ true
    → ((lan_gateway_coverage_report status file).0 ≡ "pass") ↔ IsProven status
unfolding lan_gateway_coverage_report coverage_checks
lan_gateway_coverage_report_iff status file enabled =
    let rules = lan_gateway_rule_text status.nft file in
    let report = overall_iff (coverage_checks status rules) in
    (
      λ h.
          covered-IsProven status file rules refl
            ((checks_iff status rules.0 rules.1).0 (report.0 (rw enabled at h))),
      λ h.
          rw (enabled, listed status.nft file h.loaded (not_empty status.nft.detail h.quic))
            ((overall_iff (coverage_checks status ("nft", status.nft.detail))).1
              ((checks_iff status "nft" status.nft.detail).1 (proven-IsCovered status h))),
    )
