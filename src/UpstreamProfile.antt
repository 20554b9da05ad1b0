-- ===== src/UpstreamProfile.antt =====
-- agent/upstream_profile.py: a profile from the outbounds of an upstream configuration. `lower`, `strip`
-- and `isdigit` are those of ASCII text.
pub mod Default
use proxy_gateway_console_pu.Prelude.{
  is_space, is_digit, is_space, is_digit, String, Char, code, Bool, true, false, ◌&&◌, ◌||◌, not,
  ◌==◌, ◌=?◌, ltb, leb, if◌then◌else◌, ◌<>◌, strip, lower, List, [], ◌∷◌, ◌++◌, ℕ, length, Option,
  none, some, any,
}
use proxy_gateway_console_pu.Json.{
  Json, Fields, Items, field, end, cons, nil, str, nat, obj, arr, list, dict, get, keys, has, put,
  merge, fields,
}
use proxy_gateway_console_pu.SessionStore.Redact.{take_str}
use proxy_gateway_console_pu.SessionStore.{World, FilePath, File, json}
use proxy_gateway_console_pu.Outcome.{Outcome, ok, raised, value_error, ◌>>=◌}
use proxy_gateway_console_pu.ProfileSchema.{validate_profile, default_policy}

-- [a-zA-Z0-9_-]
abbrev pub is_tag_char : Char → Bool
is_tag_char c =
    (leb b'a' (code c) && leb (code c) b'z')
    || (leb b'A' (code c) && leb (code c) b'Z')
    || is_digit c
    || code c =? b'_'
    || code c =? b'-'

abbrev pub dash : Char
dash = "-"

-- TAG_PATTERN.sub("-", text), where the flag says that the last character began or continued a match
unfoldable pub sub_dashes : Bool → String → String
sub_dashes matching String.[] = String.[]
sub_dashes matching (String.◌∷◌ c s) = elim (is_tag_char c) [
  | true ↦ String.◌∷◌ c (sub_dashes false s)
  | false ↦ let rest = sub_dashes true s in if matching then rest else String.◌∷◌ dash rest
]

abbrev pub starts_with_digit : String → Bool
starts_with_digit String.[] = false
starts_with_digit (String.◌∷◌ c s) = is_digit c

unfoldable pub normalize_route_id : String → String
normalize_route_id tag =
    let normalized = strip (λ c. code c =? b'-') (sub_dashes false (lower (strip is_space tag))) in
    if normalized == ""
    then ""
    else take_str 48 (if starts_with_digit normalized then "route-" <> normalized else normalized)

-- load_upstream_json
unfoldable pub load_upstream_json : World → FilePath → Outcome Fields
load_upstream_json w path = elim (w.files path) [
  | none ↦ raised (value_error "upstream adapter is missing")
  | some (json (dict fs)) ↦ ok fs
  | some (json v) ↦ raised (value_error "upstream adapter must be an object")
  | some f ↦ raised (value_error "upstream adapter is not valid JSON")
]

-- What the loop over the outbounds fills.
pub record Import : Type 0 where
  pub routes : Fields
  pub regions : List Json
  pub seen : List String

abbrev pub is_seen : String → List String → Bool
is_seen id ids = any (λ s. s == id) ids

unfoldable pub add_route : String → String → Import → Import
add_route id raw_tag i = record {
  routes =
      put id
        (obj (
          ("type", str "adapter")
          ∷ ("adapterKind", str "sing-box-outbound")
          ∷ ("authRef", str ("adapter:sing-box:" <> id))
          ∷ ("label", str raw_tag)
          ∷ []))
        i.routes;
  regions = i.regions ++ obj (("id", str id) ∷ ("label", str raw_tag) ∷ []) ∷ [];
  seen = id ∷ i.seen;
}

unfoldable pub add_tag : Json → Import → Import
add_tag (str raw_tag) i =
    let id = normalize_route_id raw_tag in
    if strip is_space raw_tag == "" || id == "" || is_seen id i.seen
    then i
    else add_route id raw_tag i
add_tag v i = i

unfoldable pub add_outbound : Json → Import → Import
add_outbound (dict outbound) i = add_tag (get "tag" outbound) i
add_outbound v i = i

unfoldable pub add_outbounds : Items → Import → Import
add_outbounds nil i = i
add_outbounds (cons outbound rest) i = add_outbounds rest (add_outbound outbound i)

-- next(iter(routes)) of routes that are not empty
abbrev pub first_key : Fields → String
first_key end = ""
first_key (field k v fs) = k

abbrev pub final_id : Json → Fields → String
final_id (str final) routes = normalize_route_id final
final_id v routes = first_key routes

unfoldable pub default_region : Json → Fields → String
default_region final routes =
    let wanted = final_id final routes in if has wanted routes then wanted else first_key routes

-- list(routes.keys())[:2] if len(routes) > 1 else [default_region, default_region]
abbrev pub failover_pair : List String → String → Json
failover_pair (a ∷ b ∷ rest) region = arr (str a ∷ str b ∷ [])
failover_pair ks region = arr (str region ∷ str region ∷ [])

unfoldable pub imported : String → Import → String → Json
imported name i region = obj (
    ("version", nat 2)
    ∷ ("name", str name)
    ∷ (
      "routes",
      dict (
          merge i.routes (
            fields (
              (
                "failover",
                obj (
                    ("type", str "failover")
                    ∷ ("order", failover_pair (keys i.routes) region)
                    ∷ []),
              )
              ∷ (
                "lanProxy",
                obj (
                    ("type", str "lanProxy")
                    ∷ ("bind", str "dynamic")
                    ∷ ("policy", str default_policy)
                    ∷ []),
              )
              ∷ []))),
    )
    ∷ (
      "splitRules",
      obj (
          ("policy", str default_policy)
          ∷ ("domestic", str "direct")
          ∷ ("private", str "direct")
          ∷ ("foreign", str region)
          ∷ []),
    )
    ∷ ("ui", obj (("defaultRegion", str region) ∷ ("regions", arr i.regions) ∷ []))
    ∷ (
      "adapterSources",
      obj (
          (
            "singBoxUpstream",
            obj (
                ("outboundCount", nat (length (keys i.routes)))
                ∷ ("defaultRoute", str region)
                ∷ []),
          )
          ∷ []),
    )
    ∷ ("privacy", obj (("logs", str "redacted") ∷ ("state", str "tmpfs-or-usb") ∷ []))
    ∷ [])

abbrev pub no_import : Import
no_import = record { routes = end; regions = []; seen = [] }

-- `not isinstance(outbounds, list) or not outbounds`
abbrev pub need_outbounds : Json → Outcome Items
need_outbounds (list (cons x xs)) = ok (cons x xs)
need_outbounds v = raised (value_error "upstream adapter outbounds must be a non-empty list")

abbrev pub need_tagged : Import → Outcome Import
need_tagged i = elim i.routes [
  | end ↦ raised (value_error "upstream adapter has no tagged outbounds")
  | field k v fs ↦ ok i
]

unfoldable pub upstream_to_profile : Fields → String → Outcome Json
upstream_to_profile upstream name = do
  outbounds ← need_outbounds (get "outbounds" upstream)
  i ← need_tagged (add_outbounds outbounds no_import)
  validate_profile (imported name i (default_region (get "final" upstream) i.routes))
