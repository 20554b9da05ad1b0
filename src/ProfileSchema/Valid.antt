-- ===== src/ProfileSchema/Valid.antt =====
-- `validate_profile` of agent/profile_schema.py and the valid profiles of the specification.
use proxy_gateway_console_pu.Prelude.{
  subst, [], sym, ◌||◌, not, ◌⊎◌, ◌+◌, All, ◌≢◌, true, ℕ, arith, eq_iff, ap, ◌==◌, Bool-cases, ◌↔◌,
  ◌≡◌, String, inl, inr, refl,
}
use proxy_gateway_console_pu.Outcome.{Outcome, ◌>>=◌, >>-eq-ok, >>=-eq-ok, ok}
use proxy_gateway_console_pu.ProfileSchema.Secrets.{reject_inline_secrets_iff}
use proxy_gateway_console_pu.ProfileSchema.Routes.{
  validate_routes_iff, policy_passes, is_policy, need_dict-eq-ok, fail_unless-eq-ok,
}
use proxy_gateway_console_pu.Json.{
  obj, arr, eq_ℕ, get_or, truthy, elems, get, Items, dict, field, end, null, list, cons, nil, str,
  Fields, Json,
}
use proxy_gateway_console_pu.ProfileSchema.{
  validate_routes, is_dict, need_regions, validate_ui, check_ui, need_routes, check_profile,
  validate_profile, default_policy, check_split_rules, default_region_ok, fail_unless,
  split_policies, in_set, need_dict, validate_split_rules, names_route, is_label, validate_region,
  validate_regions, validate_target,
}
use proxy_gateway_console_pu.ProfileSchema.Spec.{
  AreRegions, IsUi, IsProfile, Optional, NamesRoute, IsRegion, IsRules, IsTarget,
}

pub IsTarget-iff :
    (key : String) (v : Json) (routes : Fields)
    → (validate_target key v routes ≡ ok tt) ↔ IsTarget routes v
unfolding validate_target
IsTarget-iff key (str s) routes = (
  λ h. elim (Bool-cases (s == "")) [
    | inl e ↦ inl (rw e)
    | inr e ↦ elim (Bool-cases (s == "direct")) [
      | inl d ↦ inr (inl (ap str ((eq_iff s "direct").0 d)))
      | inr d ↦ inr (inr (s, refl, fail_unless-eq-ok _ _ (rw (e, d) at h)))
    ]
  ],
  λ p. ground (arith, eq_iff s "direct"),
)
IsTarget-iff key null routes = (λ h. inl refl, λ p. refl)
IsTarget-iff key (list nil) routes = (λ h. inl refl, λ p. refl)
IsTarget-iff key (dict end) routes = (λ h. inl refl, λ p. refl)
IsTarget-iff key (list (cons x xs)) routes = (λ h. cc, λ p. ground arith)
IsTarget-iff key (dict (field k x xs)) routes = (λ h. cc, λ p. ground arith)
IsTarget-iff key v routes = (λ h. ground arith, λ p. ground arith)

module _ (routes : Fields) where
  -- `_validate_split_rules`
  IsRules-iff :
      (rules : Fields) → (validate_split_rules rules routes ≡ ok tt) ↔ IsRules routes rules
  unfolding validate_split_rules
  IsRules-iff rules =
      let domestic = IsTarget-iff "domestic" (get "domestic" rules) routes in
      let private = IsTarget-iff "private" (get "private" rules) routes in
      let foreign = IsTarget-iff "foreign" (get "foreign" rules) routes in
      (
        λ h.
            let (known, k, a) =
              >>=-eq-ok (in_set (get_or "policy" (str default_policy) rules) split_policies) _ h in
            let (u, b) = >>-eq-ok (fail_unless known _) _ a in
            let (d, c) = >>-eq-ok (validate_target "domestic" (get "domestic" rules) routes) _ b in
            let (p, f) = >>-eq-ok (validate_target "private" (get "private" rules) routes) _ c in
            record {
              policy = is_policy _ "splitRules policy is unsupported" (rw k u);
              domestic = domestic.0 d;
              private = private.0 p;
              foreign = foreign.0 f;
            },
        λ r.
            let p = policy_passes _ "splitRules policy is unsupported" r.policy in
            let (known, k, u) =
              >>=-eq-ok (in_set (get_or "policy" (str default_policy) rules) split_policies) _ p in
            rw k
              (rw u (rw (domestic.1 r.domestic) (rw (private.1 r.private) (foreign.1 r.foreign)))),
      )

  names_route_iff : (v : Json) → (names_route v routes ≡ true) ↔ NamesRoute routes v
  names_route_iff (str s) = (λ h. (s, refl, h), λ p. ground arith)
  names_route_iff null = (λ h. cc, λ p. ground arith)
  names_route_iff v = (λ h. cc, λ p. ground arith)

  label_iff : (v : Json) → (is_label v ≡ true) ↔ ((label : String) × (v ≡ str label) × (label ≢ ""))
  label_iff (str s) =
      (λ h. (s, refl, λ e. ground (arith, eq_iff s "")), λ p. ground (arith, eq_iff s ""))
  label_iff null = (λ h. cc, λ p. ground arith)
  label_iff v = (λ h. cc, λ p. ground arith)

  IsRegion-iff :
      (index : ℕ) (v : Json) → (validate_region index v routes ≡ ok tt) ↔ IsRegion routes v
  unfolding validate_region
  IsRegion-iff index v = (
    λ h.
        let (region, is, a) = >>=-eq-ok (need_dict v _) _ h in
        let (n, l) = >>-eq-ok (fail_unless (names_route _ routes) _) (fail_unless _ _) a in
        (
          region,
          need_dict-eq-ok v _ region is,
          (names_route_iff _).0 (fail_unless-eq-ok _ _ n),
          (label_iff _).0 (fail_unless-eq-ok _ _ l),
        ),
    λ (region, is, n, l). rw is (rw ((names_route_iff _).1 n) (rw ((label_iff _).1 l))),
  )

  regions_iff :
      (index : ℕ) (xs : Items)
      → (validate_regions index xs routes ≡ ok tt) ↔ All (IsRegion routes) (elems xs)
  unfolding validate_regions
  regions_iff index nil = (λ h. tt, λ h. refl)
  regions_iff index (cons v xs) =
      let one = IsRegion-iff index v in
      let more = regions_iff (index + 1) xs in
      (
        λ h. let (a, b) = >>-eq-ok (validate_region index v routes) _ h in (one.0 a, more.0 b),
        λ (a, b). rw (one.1 a) (more.1 b),
      )

  -- A section that may be left out: the check of a value that counts as true.
  Optional-IsRules_iff :
      (v : Json) → (check_split_rules v routes ≡ ok tt) ↔ Optional (IsRules routes) v
  unfolding check_split_rules
  Optional-IsRules_iff (dict end) = (λ h. inl refl, λ h. refl)
  Optional-IsRules_iff (dict (field k x fs)) =
      let (sound, complete) = IsRules-iff (field k x fs) in
      (
        λ h. inr (field k x fs, refl, sound h),
        λ p. elim p [ inl e ↦ cc | inr (gs, e, r) ↦ complete (rw (dict_inj e) r) ],
      )
    where
      dict_inj : {fs gs : Fields} → dict fs ≡ dict gs → fs ≡ gs
      dict_inj e = cc
  Optional-IsRules_iff null = (λ h. inl refl, λ h. refl)
  Optional-IsRules_iff v = (λ h. ground arith, λ p. ground arith)

  default_iff :
      (v : Json) → (default_region_ok v routes ≡ true) ↔ ((v ≡ null) ⊎ NamesRoute routes v)
  default_iff null = (λ h. inl refl, λ p. refl)
  default_iff (str s) = (λ h. inr (s, refl, h), λ p. ground arith)
  default_iff v = (λ h. cc, λ p. ground arith)

  region_list_iff :
      (v : Json)
      → ((need_regions v >>= λ xs. validate_regions 0 xs routes) ≡ ok tt) ↔ AreRegions routes v
  region_list_iff (list nil) = (λ h. inl refl, λ p. unfold validate_regions in refl)
  region_list_iff (list (cons x xs)) =
      let (sound, complete) = regions_iff 0 (cons x xs) in
      (
        λ h. inr (cons x xs, refl, sound h),
        λ p. elim p [
          | inl e ↦ cc
          | inr (ys, e, r) ↦
              complete (subst (λ zs. All (IsRegion routes) (elems zs)) (sym (list_inj e)) r)
        ],
      )
    where
      list_inj : {xs ys : Items} → list xs ≡ list ys → xs ≡ ys
      list_inj e = cc
  region_list_iff null = (λ h. inl refl, λ p. unfold validate_regions in refl)
  region_list_iff v =
      (λ h. unfold validate_regions in ground arith, λ p. unfold validate_regions in ground arith)

  -- `_validate_ui`
  IsUi-iff : (ui : Fields) → (validate_ui (dict ui) routes ≡ ok tt) ↔ IsUi routes ui
  unfolding validate_ui
  IsUi-iff ui =
      let region = default_iff (get "defaultRegion" ui) in
      let regions = region_list_iff (get_or "regions" (arr []) ui) in
      (
        λ h.
            let (a, b) =
              >>-eq-ok (fail_unless (default_region_ok (get "defaultRegion" ui) routes) _) _ h in
            record { default_region = region.0 (fail_unless-eq-ok _ _ a); regions = regions.0 b },
        λ u. rw (region.1 u.default_region) (regions.1 u.regions),
      )

  Optional-IsUi_iff : (v : Json) → (check_ui v routes ≡ ok tt) ↔ Optional (IsUi routes) v
  unfolding check_ui
  Optional-IsUi_iff (dict end) = (λ h. inl refl, λ h. refl)
  Optional-IsUi_iff (dict (field k x fs)) =
      let (sound, complete) = IsUi-iff (field k x fs) in
      (
        λ h. inr (field k x fs, refl, sound h),
        λ p. elim p [ inl e ↦ cc | inr (gs, e, r) ↦ complete (rw (dict_inj e) r) ],
      )
    where
      dict_inj : {fs gs : Fields} → dict fs ≡ dict gs → fs ≡ gs
      dict_inj e = cc
  Optional-IsUi_iff null = (λ h. inl refl, λ h. refl)
  Optional-IsUi_iff v = (λ h. unfold validate_ui in ground arith, λ p. ground arith)

privacy_iff : (v : Json) → ((not (truthy v) || is_dict v) ≡ true) ↔ Optional (λ _. Unit {0}) v
privacy_iff (dict fs) = (λ h. inr (fs, refl, tt), λ p. ground arith)
privacy_iff null = (λ h. inl refl, λ p. refl)
privacy_iff v = (λ h. ground arith, λ p. ground arith)

routes_dict :
    (v : Json) (routes : Fields) → need_routes v ≡ ok routes → (v ≡ dict routes) × (routes ≢ end)
routes_dict (dict (field k x fs)) routes h = ground arith
routes_dict (dict end) routes h = cc
routes_dict null routes h = cc
routes_dict v routes h = cc

need_some_routes : (routes : Fields) → routes ≢ end → need_routes (dict routes) ≡ ok routes
need_some_routes end h = absurd (h refl)
need_some_routes (field k v fs) h = refl

-- The body of `validate_profile`, on a dict.
check_profile_iff : (fs : Fields) → (check_profile (dict fs) ≡ ok tt) ↔ IsProfile fs
unfolding check_profile
check_profile_iff fs = (
  λ h.
      let (v, a) = >>-eq-ok (fail_unless (eq_ℕ 2 (get "version" fs)) _) _ h in
      let (routes, r, b) = >>=-eq-ok (need_routes (get "routes" fs)) _ a in
      let (e, c) = >>-eq-ok (validate_routes routes routes) _ b in
      let (s, d) = >>-eq-ok (check_split_rules (get_or "splitRules" (obj []) fs) routes) _ c in
      let (u, f) = >>-eq-ok (check_ui (get_or "ui" (obj []) fs) routes) _ d in
      let (p, n) = >>-eq-ok (fail_unless _ "privacy must be an object") _ f in
      let (at, some_route) = routes_dict (get "routes" fs) routes r in
      record {
        version = fail_unless-eq-ok _ _ v;
        routes = routes;
        routes_at = at;
        nonempty = some_route;
        each = (validate_routes_iff routes routes).0 e;
        rules = (Optional-IsRules_iff routes _).0 s;
        ui = (Optional-IsUi_iff routes _).0 u;
        privacy = (privacy_iff _).0 (fail_unless-eq-ok _ _ p);
        no_secret = (reject_inline_secrets_iff (dict fs) "").0 n;
      },
  λ w. rw w.version (
      rw w.routes_at (
        rw (need_some_routes w.routes w.nonempty) (
          rw ((validate_routes_iff w.routes w.routes).1 w.each) (
            rw ((Optional-IsRules_iff w.routes _).1 w.rules) (
              rw ((Optional-IsUi_iff w.routes _).1 w.ui) (
                rw ((privacy_iff _).1 w.privacy)
                  ((reject_inline_secrets_iff (dict fs) "").1 w.no_secret))))))),
)

-- `validate_profile` returns a value exactly if it was given a dict that meets the specification,
-- and what it returns is the profile that it was given.
pub validate_profile_iff :
    (v w : Json)
    → (validate_profile v ≡ ok w) ↔ ((w ≡ v) × ((fs : Fields) × (v ≡ dict fs) × IsProfile fs))
unfolding validate_profile
validate_profile_iff (dict fs) w =
    let (sound, complete) = check_profile_iff fs in
    (
      λ h.
          let (u, a, b) = >>=-eq-ok (check_profile (dict fs)) (λ _. ok (dict fs)) h in
          (sym (ok_inj b), (fs, refl, sound a)),
      λ (e, (gs, p, good)). rw (complete (subst IsProfile (sym (dict_inj p)) good)) (ap ok (sym e)),
    )
  where
    dict_inj : {fs gs : Fields} → dict fs ≡ dict gs → fs ≡ gs
    dict_inj e = cc

    ok_inj : {a b : Json} → ◌≡◌ {A = Outcome Json} (ok a) (ok b) → a ≡ b
    ok_inj e = cc
validate_profile_iff null w = (λ h. cc, λ p. ground arith)
validate_profile_iff v w = (λ h. cc, λ p. ground arith)
