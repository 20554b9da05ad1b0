-- ===== src/SplitProxy/Route/Direct.antt =====
-- Which targets the split proxy connects to without the upstream.
use proxy_gateway_console_pu.Prelude.{
  ◌∙◌, ap, Option-cases, inr, inl, refl, none, Bool-cases, [], ◌⊎◌, some, ◌↔◌, eq_iff, ◌++◌, ◌∷◌,
  true, false, All, arith, ◌≡◌, String, ℕ, List,
}
use proxy_gateway_console_pu.Outcome.{>>=-eq-ok, os_error, raised, ok, Outcome}
use proxy_gateway_console_pu.SplitProxy.Address.{
  Ip, v4, v6, Net, Addresses, ip_address, is_direct_ip, in_any, private_nets,
}
use proxy_gateway_console_pu.SplitProxy.Route.{
  Decision, decision, normalized, host_matches, literal_route, parse_all, judge, resolved_route,
  choose_route,
}

abbrev pub IsLocal : List Net → Ip → Type 0
IsLocal cn (v4 n) = (in_any private_nets n ≡ true) ⊎ (in_any cn n ≡ true)
IsLocal cn v6 = ⊥

module _ (a : Addresses) (cn : List Net) (force_direct force_proxy : List String)
    (resolver : String → Outcome (List String)) (host : String) where
  -- The three ways to be sent directly.
  pub data SentDirect : Type 0 where
    forced :
        host_matches (normalized host) force_proxy ≡ false
        → host_matches (normalized host) force_direct ≡ true
        → SentDirect
    literal :
        (n : ℕ)
        → host_matches (normalized host) force_proxy ≡ false
        → host_matches (normalized host) force_direct ≡ false
        → ip_address a (normalized host) ≡ some (v4 n)
        → IsLocal cn (v4 n)
        → SentDirect
    resolved :
        (ip : String) (ips : List String) (parsed : List Ip)
        → host_matches (normalized host) force_proxy ≡ false
        → host_matches (normalized host) force_direct ≡ false
        → ip_address a (normalized host) ≡ none
        → resolver (normalized host) ≡ ok (ip ∷ ips)
        → parse_all a cn (ip ∷ ips) ≡ ok parsed
        → All (IsLocal cn) parsed
        → SentDirect

not_direct : ◌≡◌ {A = String} "proxy" "direct" → ⊥
not_direct h = ground (arith, eq_iff "proxy" "direct")

ok_mode :
    {c d : Decision}
    → ◌≡◌ {A = Outcome Decision} (ok c) (ok d)
    → d.mode ≡ "direct"
    → c.mode ≡ "direct"
ok_mode {c} {d} e h = let same : c ≡ d = cc in ap (λ x. x.mode) same ∙ h

module _ (a : Addresses) (cn : List Net) where
  is_direct_ip-IsLocal : (n : ℕ) → ((is_direct_ip cn n).0 ≡ true) ↔ IsLocal cn (v4 n)
  unfolding is_direct_ip
  is_direct_ip-IsLocal n = (λ h. ground arith, λ h. ground arith)

  judge_sound :
      (ips : List String) (parsed : List Ip) (reasons : List String)
      → (judge a cn ips parsed reasons).mode ≡ "direct"
      → All (IsLocal cn) parsed
  unfolding judge
  judge_sound ips [] reasons h = tt
  judge_sound ips (v6 ∷ rest) reasons h = absurd (not_direct h)
  judge_sound ips (v4 n ∷ rest) reasons h = elim (Bool-cases (is_direct_ip cn n).0) [
    | inl yes_direct ↦ (
      (is_direct_ip-IsLocal n).0 yes_direct,
      judge_sound ips rest (reasons ++ (is_direct_ip cn n).1 ∷ []) (rw yes_direct at h),
    )
    | inr no_direct ↦ absurd (ground (arith, eq_iff "proxy" "direct"))
  ]

  judge_complete :
      (ips : List String) (parsed : List Ip) (reasons : List String)
      → All (IsLocal cn) parsed
      → (judge a cn ips parsed reasons).mode ≡ "direct"
  unfolding judge
  judge_complete ips [] reasons h = refl
  judge_complete ips (v6 ∷ rest) reasons h = absurd h.0
  judge_complete ips (v4 n ∷ rest) reasons (local, h) =
      rw ((is_direct_ip-IsLocal n).1 local)
        (judge_complete ips rest (reasons ++ (is_direct_ip cn n).1 ∷ []) h)

  literal_route-mode :
      (ip : Ip)
      → (literal_route a cn ip).mode ≡ "direct"
      → (n : ℕ) × (ip ≡ v4 n) × IsLocal cn (v4 n)
  unfolding literal_route
  literal_route-mode v6 h = absurd (ground (arith, eq_iff "proxy" "direct"))
  literal_route-mode (v4 n) h = elim (Bool-cases (is_direct_ip cn n).0) [
    | inl yes_direct ↦ (n, refl, (is_direct_ip-IsLocal n).0 yes_direct)
    | inr no_direct ↦ absurd (ground (arith, eq_iff "proxy" "direct"))
  ]

  resolved_route_sound :
      (r : Outcome (List String)) (d : Decision)
      → resolved_route a cn r ≡ ok d
      → d.mode ≡ "direct"
      → (ip : String) × (ips : List String) × (parsed : List Ip) × (r ≡ ok (ip ∷ ips))
        × (parse_all a cn (ip ∷ ips) ≡ ok parsed)
        × All (IsLocal cn) parsed
  unfolding resolved_route
  resolved_route_sound (raised (os_error k e m)) d h mode = absurd (not_direct (ok_mode h mode))
  resolved_route_sound (raised e) d h mode = absurd (cc h)
  resolved_route_sound (ok []) d h mode = absurd (not_direct (ok_mode h mode))
  resolved_route_sound (ok (ip ∷ ips)) d h mode =
      let (parsed, p, q) =
        >>=-eq-ok (parse_all a cn (ip ∷ ips)) (λ parsed. ok (judge a cn (ip ∷ ips) parsed [])) h in
      (ip, ips, parsed, refl, p, judge_sound (ip ∷ ips) parsed [] (ok_mode q mode))

  -- Whatever the networks, patterns, resolver and host: `choose_route` decides for a direct connection
  -- exactly if no pattern forces the proxy, and either a pattern forces the direct way, or the host is a
  -- local or listed IPv4 address, or it resolves to one address or more that are all such.
  pub choose_route_direct_iff :
      (force_direct force_proxy : List String) (resolver : String → Outcome (List String))
      (host : String)
      → ((d : Decision) × (choose_route a cn force_direct force_proxy resolver host ≡ ok d)
          × (d.mode ≡ "direct"))
        ↔ SentDirect a cn force_direct force_proxy resolver host
  unfolding choose_route
  choose_route_direct_iff force_direct force_proxy resolver host = (sound, complete)
    where
      name : String
      name = normalized host

      unforced :
          (d : Decision)
          → host_matches name force_proxy ≡ false
          → host_matches name force_direct ≡ false
          → choose_route a cn force_direct force_proxy resolver host ≡ ok d
          → d.mode ≡ "direct"
          → SentDirect a cn force_direct force_proxy resolver host
      unforced d p q h mode = elim (Option-cases (ip_address a name)) [
        | inr (ip, found) ↦
            let (n, is, local) = literal_route-mode ip (ok_mode (rw (p, q, found) at h) mode) in
            SentDirect.literal n p q (found ∙ ap some is) local
        | inl none_found ↦
            let (ip, ips, parsed, r, all_parsed, local) =
              resolved_route_sound (resolver name) d (rw (p, q, none_found) at h) mode in
            SentDirect.resolved ip ips parsed p q none_found r all_parsed local
      ]

      sound :
          ((d : Decision) × (choose_route a cn force_direct force_proxy resolver host ≡ ok d)
            × (d.mode ≡ "direct"))
          → SentDirect a cn force_direct force_proxy resolver host
      sound (d, h, mode) = elim (Bool-cases (host_matches name force_proxy)) [
        | inl p ↦ absurd (not_direct (ok_mode (rw p at h) mode))
        | inr p ↦ elim (Bool-cases (host_matches name force_direct)) [
          | inl q ↦ SentDirect.forced p q
          | inr q ↦ unforced d p q h mode
        ]
      ]

      complete :
          SentDirect a cn force_direct force_proxy resolver host
          → (d : Decision) × (choose_route a cn force_direct force_proxy resolver host ≡ ok d)
            × (d.mode ≡ "direct")
      complete (SentDirect.forced p q) = (decision "direct" "force-direct" [], rw (p, q) refl, refl)
      complete (SentDirect.literal n p q found local) = (
        literal_route a cn (v4 n),
        rw (p, q, found) refl,
        unfold literal_route in rw ((is_direct_ip-IsLocal n).1 local) refl,
      )
      complete (SentDirect.resolved ip ips parsed p q none_found r all_parsed local) = (
        judge a cn (ip ∷ ips) parsed [],
        rw (p, q, none_found) (unfold resolved_route in rw r (rw all_parsed refl)),
        judge_complete (ip ∷ ips) parsed [] local,
      )
