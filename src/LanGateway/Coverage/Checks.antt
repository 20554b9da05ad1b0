-- ===== src/LanGateway/Coverage/Checks.antt =====
-- What it takes for the checks of the coverage report of runtime/proxy-stack/proxy_stack.py to pass.
use proxy_gateway_console_pu.Prelude.{
  ◌∙◌, sym, ap, inr, Bool-cases, inl, All, ◌⊎◌, ◌==◌, ◌&&◌, ◌||◌, not, any, Bool, true, false, ◌≡◌,
  ◌↔◌, refl, if◌then◌else◌, str_contains, [], ◌∷◌, List, String, arith,
}
use proxy_gateway_console_pu.LanGateway.Coverage.{
  Status, coverage_checks, overall_self_check_status, redirect_status, target_status, has_dns_rules,
  has_ipv6_rule, pass_or,
}

-- A status that is neither "fail" nor "warn".
abbrev Clean : String × String → Type 0
Clean check = ((check.1 == "fail") ≡ false) × ((check.1 == "warn") ≡ false)

neither : (b c : Bool) → (b || c) ≡ false → (b ≡ false) × (c ≡ false)
neither b c h = ground arith

any-Clean :
    (checks : List (String × String))
    → any (λ check. check.1 == "fail") checks ≡ false
    → any (λ check. check.1 == "warn") checks ≡ false
    → All Clean checks
any-Clean [] f w = tt
any-Clean (check ∷ checks) f w =
    let (f0, f1) = neither (check.1 == "fail") _ f in
    let (w0, w1) = neither (check.1 == "warn") _ w in ((f0, w0), any-Clean checks f1 w1)

Clean-any :
    (checks : List (String × String))
    → All Clean checks
    → (any (λ check. check.1 == "fail") checks ≡ false)
      × (any (λ check. check.1 == "warn") checks ≡ false)
Clean-any [] h = (refl, refl)
Clean-any (check ∷ checks) h =
    let (f, w) = Clean-any checks h.1 in (rw (h.0.0, f) refl, rw (h.0.1, w) refl)

fail≢pass : ◌≡◌ {A = String} "fail" "pass" → ⊥
fail≢pass h = let differ : false ≡ true = ap (λ s. s == "pass") h in cc

warn≢pass : ◌≡◌ {A = String} "warn" "pass" → ⊥
warn≢pass h = let differ : false ≡ true = ap (λ s. s == "pass") h in cc

pub overall_iff :
    (checks : List (String × String))
    → (overall_self_check_status checks ≡ "pass") ↔ All Clean checks
unfolding overall_self_check_status
overall_iff checks = (
  λ h. elim (Bool-cases (any (λ check. check.1 == "fail") checks)) [
    | inl f ↦ absurd (fail≢pass (rw f at h))
    | inr f ↦ elim (Bool-cases (any (λ check. check.1 == "warn") checks)) [
      | inl w ↦ absurd (warn≢pass (rw (f, w) at h))
      | inr w ↦ any-Clean checks f w
    ]
  ],
  λ h. let (f, w) = Clean-any checks h in rw (f, w) refl,
)

pass_or_iff :
    (id other : String) (b : Bool)
    → (other ≡ "fail") ⊎ (other ≡ "warn")
    → Clean (id, pass_or other b) ↔ (b ≡ true)
pass_or_iff id other true h = (λ c. refl, λ e. (refl, refl))
pass_or_iff id other false (inl h) = (λ c. absurd (cc (rw h at c.0)), λ e. cc)
pass_or_iff id other false (inr h) = (λ c. absurd (cc (rw h at c.1)), λ e. cc)

pub true≢false : true ≡ false → ⊥
true≢false h = cc

no_both : (a b c d : Bool) → (a && (b || d)) ≡ false → (a && (b && c)) ≡ true → ⊥
no_both a b c d h k = ground arith

target_iff :
    (id state : String) (b : Bool)
    → Clean (id, target_status state b) ↔ (((state == "loaded") ≡ true) × (b ≡ true))
unfolding target_status
target_iff id state b = elim (Bool-cases (state == "loaded")) [
  | inl l ↦ (
    λ c. (l, (pass_or_iff id "fail" b (inl refl)).0 (rw l at c)),
    λ h. rw l ((pass_or_iff id "fail" b (inl refl)).1 h.1),
  )
  | inr l ↦ elim (Bool-cases (state == "needs_root_check")) [
    | inl r ↦ (λ c. absurd (true≢false (rw (l, r) at c.1)), λ h. absurd (cc (l, h.0)))
    | inr r ↦ (λ c. absurd (true≢false (rw (l, r) at c.0)), λ h. absurd (cc (l, h.0)))
  ]
]

redirect_iff :
    (id state : String) (listens rules proven : Bool)
    → Clean (id, redirect_status state listens rules proven)
      ↔ ((listens && (rules && proven)) ≡ true)
unfolding redirect_status
redirect_iff id state listens rules proven =
    elim (Bool-cases (listens && (rules || state == "needs_root_check"))) [
      | inl l ↦ (
        λ c.
            let both = (pass_or_iff id "warn" (rules && proven) (inr refl)).0 (rw l at c) in
            ground (arith, l),
        λ h.
            let both : (rules && proven) ≡ true = ground (arith, h) in
            rw l ((pass_or_iff id "warn" (rules && proven) (inr refl)).1 both),
      )
      | inr l ↦ (
        λ c. absurd (true≢false (rw l at c.0)),
        λ h. absurd (no_both listens rules proven (state == "needs_root_check") l h),
      )
    ]

selected_iff :
    (id client : String) (stale : Bool)
    → Clean (id, if client == "" then "fail" else if stale then "warn" else "pass")
      ↔ (((client == "") ≡ false) × (stale ≡ false))
selected_iff id client stale = elim (Bool-cases (client == "")) [
  | inl e ↦ (λ c. absurd (true≢false (rw e at c.0)), λ h. absurd (true≢false (sym e ∙ h.0)))
  | inr e ↦ elim (Bool-cases stale) [
    | inl w ↦ (λ c. absurd (true≢false (rw (e, w) at c.1)), λ h. absurd (true≢false (sym w ∙ h.1)))
    | inr w ↦ (λ c. (e, w), λ h. rw (e, w) (refl, refl))
  ]
]

-- What the nine checks ask of the rules, whatever their source.
pub record IsCovered (status : Status) (source text : String) : Type 0 where
  pub selected : ((status.client_ip == "") ≡ false) × (status.marker_stale ≡ false)
  pub target :
      ((status.nft.state == "loaded") ≡ true)
      × ((not (status.client_ip == "") && str_contains text status.client_ip) ≡ true)
  pub forwards : status.ip_forward ≡ true
  pub dns : (status.split_dns_open && (has_dns_rules text && source == "nft")) ≡ true
  pub tcp :
      (status.split_tcp_open
        && (str_contains text "meta l4proto tcp redirect to :12345" && source == "nft"))
      ≡ true
  pub quic : (str_contains text "udp dport 443 reject" && source == "nft") ≡ true
  pub ipv6 : (has_ipv6_rule text && source == "nft") ≡ true
  pub seen : any (λ ip. ip == status.client_ip) status.recent_clients ≡ true
  pub decided : (not (status.domestic == "unknown") && not (status.foreign == "unknown")) ≡ true

pub checks_iff :
    (status : Status) (source text : String)
    → All Clean (coverage_checks status (source, text)) ↔ IsCovered status source text
unfolding coverage_checks
checks_iff status source text = (
  λ c. record {
    selected = (selected_iff "selected-client" status.client_ip status.marker_stale).0 c.0;
    target = (target_iff "nft-client-target" status.nft.state _).0 c.1.0;
    forwards = (pass_or_iff "ip-forward" "fail" _ (inl refl)).0 c.1.1.0;
    dns = (redirect_iff "dns-redirect" status.nft.state _ _ _).0 c.1.1.1.0;
    tcp = (redirect_iff "tcp-redirect" status.nft.state _ _ _).0 c.1.1.1.1.0;
    quic = (pass_or_iff "udp-quic-policy" "warn" _ (inr refl)).0 c.1.1.1.1.1.0;
    ipv6 = (pass_or_iff "ipv6-policy" "warn" _ (inr refl)).0 c.1.1.1.1.1.1.0;
    seen = (pass_or_iff "recent-client-evidence" "warn" _ (inr refl)).0 c.1.1.1.1.1.1.1.0;
    decided = (pass_or_iff "dns-decision-evidence" "warn" _ (inr refl)).0 c.1.1.1.1.1.1.1.1.0;
  },
  λ h. (
    (selected_iff "selected-client" status.client_ip status.marker_stale).1 h.selected,
    (
      (target_iff "nft-client-target" status.nft.state _).1 h.target,
      (
        (pass_or_iff "ip-forward" "fail" _ (inl refl)).1 h.forwards,
        (
          (redirect_iff "dns-redirect" status.nft.state _ _ _).1 h.dns,
          (
            (redirect_iff "tcp-redirect" status.nft.state _ _ _).1 h.tcp,
            (
              (pass_or_iff "udp-quic-policy" "warn" _ (inr refl)).1 h.quic,
              (
                (pass_or_iff "ipv6-policy" "warn" _ (inr refl)).1 h.ipv6,
                (
                  (pass_or_iff "recent-client-evidence" "warn" _ (inr refl)).1 h.seen,
                  ((pass_or_iff "dns-decision-evidence" "warn" _ (inr refl)).1 h.decided, tt),
                ),
              ),
            ),
          ),
        ),
      ),
    ),
  ),
)
