-- ===== src/UpstreamProfile/Default.antt =====
-- The regions and the default that an import makes.
use proxy_gateway_console_pu.Prelude.{
  is_space, Bool, ◌||◌, ◌⊎◌, ◌≢◌, inr, eq_iff, false, [], inl, Bool-cases, ◌==◌, ◌∷◌, true, List,
  String, strip, ◌≡◌, refl, All, All-append,
}
use proxy_gateway_console_pu.Json.Laws.{lookup-put}
use proxy_gateway_console_pu.Json.{
  null, Json, Fields, Items, field, end, cons, nil, str, has, put, get, dict, lookup,
}
use proxy_gateway_console_pu.UpstreamProfile.{
  Import, add_route, add_tag, add_outbound, add_outbounds, default_region, final_id, no_import,
  is_seen, normalize_route_id,
}
use proxy_gateway_console_pu.ProfileSchema.Spec.{IsRegion}

has-put : (k j : String) (v : Json) (fs : Fields) → has j fs ≡ true → has j (put k v fs) ≡ true
has-put k j v fs h = elim (Bool-cases (k == j)) [
  | inl e ↦ rw (lookup-put k j v fs, has) (rw e refl)
  | inr e ↦ rw (lookup-put k j v fs, has) (rw e h)
]

has-put_same : (k : String) (v : Json) (fs : Fields) → has k (put k v fs) ≡ true
has-put_same k v fs =
    let e : (k == k) ≡ true = (eq_iff k k).1 refl in rw (lookup-put k k v fs, has) (rw e refl)

put-IsRegion :
    (k : String) (v : Json) (fs : Fields) (xs : List Json)
    → All (IsRegion fs) xs
    → All (IsRegion (put k v fs)) xs
put-IsRegion k v fs [] a = tt
put-IsRegion k v fs (x ∷ xs) ((region, is, (s, e, h), label), a) =
    ((region, is, (s, e, has-put k s v fs h), label), put-IsRegion k v fs xs a)

not_blank : (raw_tag : String) → (strip is_space raw_tag == "") ≡ false → raw_tag ≢ ""
unfolding strip
not_blank raw_tag h e = absurd (cc (rw e at h))

or-false : (a b : Bool) → (a || b) ≡ false → a ≡ false
or-false false b e = refl
or-false true b e = cc

add_route-IsRegion :
    (id raw_tag : String) (i : Import)
    → All (IsRegion i.routes) i.regions
    → (strip is_space raw_tag == "") ≡ false
    → All (IsRegion (add_route id raw_tag i).routes) (add_route id raw_tag i).regions
unfolding add_route
add_route-IsRegion id raw_tag i a filled =
    All-append (IsRegion (add_route id raw_tag i).routes) i.regions _
      (put-IsRegion id _ i.routes i.regions a)
      (
        (
          _,
          refl,
          (id, refl, has-put_same id _ i.routes),
          (raw_tag, refl, not_blank raw_tag filled),
        ),
        tt,
      )

add_tag-IsRegion :
    (v : Json) (i : Import)
    → All (IsRegion i.routes) i.regions
    → All (IsRegion (add_tag v i).routes) (add_tag v i).regions
unfolding add_tag add_route
add_tag-IsRegion (str raw_tag) i a =
    let id = normalize_route_id raw_tag in
    elim (Bool-cases (strip is_space raw_tag == "" || id == "" || is_seen id i.seen)) [
      | inl skip ↦ rw skip a
      | inr fresh ↦ rw fresh (add_route-IsRegion id raw_tag i a (or-false _ _ (or-false _ _ fresh)))
    ]
add_tag-IsRegion null i a = a
add_tag-IsRegion v i a = a

add_outbounds-IsRegion :
    (xs : Items) (i : Import)
    → All (IsRegion i.routes) i.regions
    → All (IsRegion (add_outbounds xs i).routes) (add_outbounds xs i).regions
unfolding add_outbounds add_outbound
add_outbounds-IsRegion nil i a = a
add_outbounds-IsRegion (cons (dict fs) xs) i a =
    add_outbounds-IsRegion xs (add_tag (get "tag" fs) i) (add_tag-IsRegion (get "tag" fs) i a)
add_outbounds-IsRegion (cons null xs) i a = add_outbounds-IsRegion xs i a
add_outbounds-IsRegion (cons v xs) i a = add_outbounds-IsRegion xs i a

has-first_key : (k : String) (v : Json) (fs : Fields) → has k (field k v fs) ≡ true
has-first_key k v fs = let e : (k == k) ≡ true = (eq_iff k k).1 refl in rw (e, has, lookup) refl

default-NamesRoute :
    (final : Json) (k : String) (v : Json) (fs : Fields)
    → has (default_region final (field k v fs)) (field k v fs) ≡ true
unfolding default_region
default-NamesRoute final k v fs =
    elim (Bool-cases (has (final_id final (field k v fs)) (field k v fs))) [
      | inl e ↦ rw e e
      | inr e ↦ rw e (has-first_key k v fs)
    ]

-- Whatever the outbounds and the final entry: every region that the import lists names one of its routes
-- and has a label, and there is no route at all, or the default region names one.
pub add_outbounds-IsRegion_default :
    (outbounds : Items) (final : Json)
    → All
        (IsRegion (add_outbounds outbounds no_import).routes)
        (add_outbounds outbounds no_import).regions
      × (((add_outbounds outbounds no_import).routes ≡ end)
          ⊎ (has
                (default_region final (add_outbounds outbounds no_import).routes)
                (add_outbounds outbounds no_import).routes
              ≡ true))
add_outbounds-IsRegion_default outbounds final = (
  add_outbounds-IsRegion outbounds no_import tt,
  end_or_named (add_outbounds outbounds no_import).routes,
)
  where
    end_or_named : (fs : Fields) → (fs ≡ end) ⊎ (has (default_region final fs) fs ≡ true)
    end_or_named end = inl refl
    end_or_named (field k v fs) = inr (default-NamesRoute final k v fs)
