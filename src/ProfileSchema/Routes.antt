-- ===== src/ProfileSchema/Routes.antt =====
-- `_validate_route` of agent/profile_schema.py and the routes of `IsRoute`.
use proxy_gateway_console_pu.Prelude.{
  ◌≢◌, ◌<>◌, ◌==◌, ◌⊎◌, ◌∙◌, ◌↔◌, not, ◌≤◌, String, ◌≡◌, inl, inr, refl, ap, Bool, true, false, ◌∷◌,
  List, [], arith, length, All, eq_iff, starts_with,
}
use proxy_gateway_console_pu.Json.{
  field, dict, get, Json, null, str, list, Items, nil, cons, Fields, elems, has, eq_str, end, field,
}
use proxy_gateway_console_pu.ProfileSchema.Spec.{
  IsRouteEntry, EachRoute, direct, failover, http, socks, lan_proxy, adapter, IsRoute, NamesRoute,
  IsPolicy,
}
use proxy_gateway_console_pu.ProfileSchema.{
  member, route_types, need_dict, validate_route, validate_routes, validate_kind, validate_endpoint,
  validate_failover, validate_lan_proxy, validate_adapter, default_policy, is_endpoint, endpoint_ok,
  auth_ref_ok, split_policies, in_set, fail_unless, need_order, missing_routes, reject_missing,
}
use proxy_gateway_console_pu.Outcome.{>>=-eq-ok, >>-eq-ok, ok, ◌>>=◌}

pub fail_unless-eq-ok : (b : Bool) (m : String) → fail_unless b m ≡ ok tt → b ≡ true
fail_unless-eq-ok true m h = refl
fail_unless-eq-ok false m h = cc

pub is_policy :
    (v : Json) (m : String)
    → (in_set v split_policies >>= λ known. fail_unless known m) ≡ ok tt
    → IsPolicy v
is_policy (str s) m h =
    ground (arith, eq_iff default_policy s, eq_iff "all-proxy" s, eq_iff "all-direct" s)
is_policy null m h = cc
is_policy _ m h = cc

pub policy_passes :
    (v : Json) (m : String)
    → IsPolicy v
    → (in_set v split_policies >>= λ known. fail_unless known m) ≡ ok tt
policy_passes v m (inl e) = rw e
policy_passes v m (inr (inl e)) = rw e
policy_passes v m (inr (inr e)) = rw e

endpoint_text :
    (v : Json) → endpoint_ok v ≡ true → (e : String) × (v ≡ str e) × (is_endpoint e ≡ true)
endpoint_text (str e) h = (e, refl, h)
endpoint_text null h = cc
endpoint_text _ h = cc

auth_ref_text :
    (v : Json)
    → auth_ref_ok v ≡ true
    → (s : String) × (v ≡ str s) × (starts_with s "adapter:sing-box:" ≡ true)
auth_ref_text (str e) h = (e, refl, h)
auth_ref_text null h = cc
auth_ref_text _ h = cc

eq_str_text : (s : String) (v : Json) → eq_str s v ≡ true → v ≡ str s
eq_str_text s (str t) h = ap str ((eq_iff t s).0 h)
eq_str_text s null h = cc
eq_str_text s _ h = cc

order_list :
    (v : Json) (m : String) (xs : Items)
    → need_order v m ≡ ok xs
    → (v ≡ list xs) × (2 ≤ length (elems xs))
order_list (list ys) m xs h = ground arith
order_list null m xs h = cc
order_list _ m xs h = cc

-- The list comprehension finds nothing exactly if every item names a route.
missing_none :
    (xs : Items) (routes : Fields)
    → missing_routes xs routes ≡ ok []
    → All (NamesRoute routes) (elems xs)
unfolding missing_routes
missing_none nil routes h = tt
missing_none (cons (str s) xs) routes h =
    let p : (missing_routes xs routes ≡ ok []) × (has s routes ≡ true) = ground arith in
    ((s, refl, p.1), missing_none xs routes p.0)
missing_none (cons v xs) routes h = ground arith

missing_none_complete :
    (xs : Items) (routes : Fields)
    → All (NamesRoute routes) (elems xs)
    → missing_routes xs routes ≡ ok []
unfolding missing_routes
missing_none_complete nil routes h = refl
missing_none_complete (cons v xs) routes ((s, e, f), h) =
    rw e (rw (f, missing_none_complete xs routes h))

nothing_missing : (id : String) (xs : List Json) → reject_missing id xs ≡ ok tt → xs ≡ []
unfolding reject_missing
nothing_missing id [] h = refl
nothing_missing id (x ∷ xs) h = ground arith

module _ (id : String) (route routes : Fields) where
  -- The four checks of a known type are independent.
  four_checks :
      (t : Json)
      → validate_kind id t route routes ≡ ok tt
      → (validate_endpoint id t route ≡ ok tt)
        × (validate_failover id t route routes ≡ ok tt)
        × (validate_lan_proxy id t route ≡ ok tt)
        × (validate_adapter id t route ≡ ok tt)
  unfolding validate_kind
  four_checks t h =
      let a = >>-eq-ok (validate_endpoint id t route) _ h in
      let b = >>-eq-ok (validate_failover id t route routes) _ a.1 in
      let c = >>-eq-ok (validate_lan_proxy id t route) (validate_adapter id t route) b.1 in
      (a.0, b.0, c.0, c.1)

  http_sound :
      get "type" route ≡ str "http"
      → validate_endpoint id (str "http") route ≡ ok tt
      → IsRoute routes route
  unfolding validate_endpoint
  http_sound e h =
      let (u, at, good) = endpoint_text (get "endpoint" route) (fail_unless-eq-ok _ _ h) in
      http u e at good

  socks_sound :
      get "type" route ≡ str "socks"
      → validate_endpoint id (str "socks") route ≡ ok tt
      → IsRoute routes route
  unfolding validate_endpoint
  socks_sound e h =
      let (u, at, good) = endpoint_text (get "endpoint" route) (fail_unless-eq-ok _ _ h) in
      socks u e at good

  failover_sound :
      get "type" route ≡ str "failover"
      → validate_failover id (str "failover") route routes ≡ ok tt
      → IsRoute routes route
  unfolding validate_failover
  failover_sound e h =
      let (xs, o, rest) = >>=-eq-ok (need_order (get "order" route) _) _ h in
      let (missing, m, last) = >>=-eq-ok (missing_routes xs routes) _ rest in
      let (at, long) = order_list (get "order" route) _ xs o in
      failover xs e at long (missing_none xs routes (rw (← nothing_missing id missing last) m))

  lan_proxy_sound :
      get "type" route ≡ str "lanProxy"
      → validate_lan_proxy id (str "lanProxy") route ≡ ok tt
      → IsRoute routes route
  unfolding validate_lan_proxy
  lan_proxy_sound e h = lan_proxy e (is_policy _ _ h)

  adapter_sound :
      get "type" route ≡ str "adapter"
      → validate_adapter id (str "adapter") route ≡ ok tt
      → IsRoute routes route
  unfolding validate_adapter
  adapter_sound e h =
      let (a, b) = >>-eq-ok (fail_unless _ _) (fail_unless _ _) h in
      let (s, at, good) = auth_ref_text (get "authRef" route) (fail_unless-eq-ok _ _ b) in
      adapter s e (eq_str_text "sing-box-outbound" _ (fail_unless-eq-ok _ _ a)) at good

  known_types :
      (s : String)
      → member s route_types ≡ true
      → (s ≡ "http")
        ⊎ ((s ≡ "socks")
            ⊎ ((s ≡ "failover") ⊎ ((s ≡ "lanProxy") ⊎ ((s ≡ "direct") ⊎ (s ≡ "adapter")))))
  known_types s h = ground (
    arith,
    eq_iff "http" s,
    eq_iff "socks" s,
    eq_iff "failover" s,
    eq_iff "lanProxy" s,
    eq_iff "direct" s,
    eq_iff "adapter" s,
  )

  kind_sound :
      (t : Json)
      → get "type" route ≡ t
      → in_set t route_types ≡ ok true
      → validate_kind id t route routes ≡ ok tt
      → IsRoute routes route
  kind_sound (str s) e m h = elim (known_types s (ground arith)) [
    | inl p ↦ http_sound (e ∙ ap str p) (four_checks (str "http") (rw p at h)).0
    | inr (inl p) ↦ socks_sound (e ∙ ap str p) (four_checks (str "socks") (rw p at h)).0
    | inr (inr (inl p)) ↦ failover_sound (e ∙ ap str p) (four_checks (str "failover") (rw p at h)).1
    | inr (inr (inr (inl p))) ↦
        lan_proxy_sound (e ∙ ap str p) (four_checks (str "lanProxy") (rw p at h)).2
    | inr (inr (inr (inr (inl p)))) ↦ direct (e ∙ ap str p)
    | inr (inr (inr (inr (inr p)))) ↦
        adapter_sound (e ∙ ap str p) (four_checks (str "adapter") (rw p at h)).3
  ]
  kind_sound null e m h = cc
  kind_sound _ e m h = cc

  long_order :
      (order : Items) (m : String) → 2 ≤ length (elems order) → need_order (list order) m ≡ ok order
  long_order order m h = ground arith

  kind_complete :
      IsRoute routes route
      → (in_set (get "type" route) route_types ≡ ok true)
        × (validate_kind id (get "type" route) route routes ≡ ok tt)
  unfolding validate_kind reject_missing
  kind_complete (http e t at good) = (rw t, rw (t, at, good))
  kind_complete (socks e t at good) = (rw t, rw (t, at, good))
  kind_complete (failover order t at long each) =
      (rw t, rw (t, at, long_order order _ long, missing_none_complete order routes each))
  kind_complete (lan_proxy t p) =
      (rw t, rw (t, policy_passes _ ("route " <> id <> " policy is unsupported") p))
  kind_complete (direct t) = (rw t, rw t)
  kind_complete (adapter ref t k at good) = (rw t, rw (t, k, at, good))

pub need_dict-eq-ok : (v : Json) (m : String) (fs : Fields) → need_dict v m ≡ ok fs → v ≡ dict fs
need_dict-eq-ok (dict gs) m fs h = cc
need_dict-eq-ok null m fs h = cc
need_dict-eq-ok _ m fs h = cc

not-empty : (id : String) → not (id == "") ≡ true → id ≢ ""
not-empty id h e = ground (arith, eq_iff id "")

-- `_validate_route` passes exactly the entries that the specification admits.
pub validate_route_iff :
    (id : String) (v : Json) (routes : Fields)
    → (validate_route id v routes ≡ ok tt) ↔ IsRouteEntry routes id v
unfolding validate_route
validate_route_iff id v routes = (sound, complete)
  where
    sound : validate_route id v routes ≡ ok tt → IsRouteEntry routes id v
    sound h =
        let (a, b) = >>-eq-ok (fail_unless (not (id == "")) _) _ h in
        let (route, is, c) = >>=-eq-ok (need_dict v _) _ b in
        let (known, k, d) = >>=-eq-ok (in_set (get "type" route) route_types) _ c in
        let (e, f) = >>-eq-ok (fail_unless known _) _ d in
        (
          not-empty id (fail_unless-eq-ok _ _ a),
          (
            route,
            need_dict-eq-ok v _ route is,
            kind_sound id route routes (get "type" route) refl (k ∙ ap ok (fail_unless-eq-ok _ _ e))
                f,
          ),
        )

    complete : IsRouteEntry routes id v → validate_route id v routes ≡ ok tt
    complete (named, (route, is, r)) =
        let (k, c) = kind_complete id route routes r in
        let n : not (id == "") ≡ true = ground (arith, eq_iff id "") in rw n (rw is (rw k c))

-- Each entry of the dict of routes is checked against the whole dict.
pub validate_routes_iff :
    (some_of routes : Fields) → (validate_routes some_of routes ≡ ok tt) ↔ EachRoute routes some_of
unfolding validate_routes
validate_routes_iff end routes = (λ _. tt, λ _. refl)
validate_routes_iff (field id v rest) routes =
    let (sound, complete) = validate_route_iff id v routes in
    let (sounds, completes) = validate_routes_iff rest routes in
    (
      λ h. let (a, b) = >>-eq-ok (validate_route id v routes) _ h in (sound a, sounds b),
      λ (r, rs). rw (complete r) (completes rs),
    )
