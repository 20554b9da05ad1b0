-- ===== src/ProfileSchema.antt =====
-- agent/profile_schema.py: the checks of an encrypted profile. Every check is a function that returns
-- or raises; `in` on a set or a dict raises `TypeError` at a list or a dict, as Python's hash does.
pub mod Secrets
pub mod Spec
pub mod Routes
pub mod Valid
pub mod Migrate
use proxy_gateway_console_pu.Prelude.{
  ℕ, suc, ◌+◌, String, ◌<>◌, Bool, true, false, not, ◌&&◌, ◌||◌, Option, none, some, List, [], ◌∷◌,
  ◌==◌, starts_with, any, length, ltb, show_ℕ, if◌then◌else◌,
}
use proxy_gateway_console_pu.Json.{
  Json, null, bool, int, float, str, list, dict, Items, nil, cons, Fields, end, field, obj, arr,
  nat, elems, get, get_or, has, lookup, put, truthy, eq_ℕ, eq_str, is_str, as_dict, as_list,
}
use proxy_gateway_console_pu.Outcome.{
  Exception, profile_validation_error, type_error, attribute_error, Outcome, ok, raised, ◌>>=◌,
  ◌>>◌, raise_if,
}
use Secrets.{reject_inline_secrets}

abbrev pub default_policy : String
default_policy = "cn-private-direct-foreign-proxy"

-- ROUTE_TYPES and SPLIT_POLICIES
abbrev pub route_types : List String
route_types = "http" ∷ "socks" ∷ "failover" ∷ "lanProxy" ∷ "direct" ∷ "adapter" ∷ []

abbrev pub split_policies : List String
split_policies = default_policy ∷ "all-proxy" ∷ "all-direct" ∷ []

abbrev pub member : String → List String → Bool
member s xs = any (λ x. x == s) xs

-- `value in {…}`, for a set of texts
abbrev pub in_set : Json → List String → Outcome Bool
in_set (str s) xs = ok (member s xs)
in_set (list _) xs = raised type_error
in_set (dict _) xs = raised type_error
in_set _ xs = ok false

-- `value in routes`, for a dict
abbrev pub in_dict : Json → Fields → Outcome Bool
in_dict (str s) fs = ok (has s fs)
in_dict (list _) fs = raised type_error
in_dict (dict _) fs = raised type_error
in_dict _ fs = ok false

abbrev pub fail_unless : Bool → String → Outcome (Unit {0})
fail_unless true message = ok tt
fail_unless false message = raised (profile_validation_error message)

abbrev pub need_dict : Json → String → Outcome Fields
need_dict (dict fs) message = ok fs
need_dict _ message = raised (profile_validation_error message)

-- The text that every accepted endpoint begins with.
abbrev pub is_endpoint : String → Bool
is_endpoint e =
    starts_with e "http://"
    || starts_with e "socks5://"
    || starts_with e "127.0.0.1"
    || starts_with e "localhost"

abbrev pub endpoint_ok : Json → Bool
endpoint_ok (str e) = is_endpoint e
endpoint_ok _ = false

pub validate_endpoint : String → Json → Fields → Outcome (Unit {0})
validate_endpoint route_id route_type route =
    if eq_str "http" route_type || eq_str "socks" route_type
    then fail_unless (endpoint_ok (get "endpoint" route))
        ("route " <> route_id <> " endpoint must be local or URL-like")
    else ok tt

-- [item for item in order if item not in routes]
pub missing_routes : Items → Fields → Outcome (List Json)
missing_routes nil routes = ok []
missing_routes (cons item order) routes = do
  found ← in_dict item routes
  missing ← missing_routes order routes
  ok (if found then missing else item ∷ missing)

-- ", ".join(missing)
join_more : List Json → Outcome String
join_more [] = ok ""
join_more (str s ∷ rest) = do more ← join_more rest; ok (", " <> s <> more)
join_more (_ ∷ rest) = raised type_error

join : List Json → Outcome String
unfolding join_more
join [] = ok ""
join (str s ∷ rest) = do more ← join_more rest; ok (s <> more)
join (_ ∷ rest) = raised type_error

pub reject_missing : String → List Json → Outcome (Unit {0})
unfolding join
reject_missing route_id [] = ok tt
reject_missing route_id (item ∷ rest) = do
  names ← join (item ∷ rest)
  raised
      (profile_validation_error ("route " <> route_id <> " references missing routes: " <> names))

abbrev pub need_order : Json → String → Outcome Items
need_order (list order) message =
    if ltb (length (elems order)) 2 then raised (profile_validation_error message) else ok order
need_order _ message = raised (profile_validation_error message)

pub validate_failover : String → Json → Fields → Fields → Outcome (Unit {0})
unfolding missing_routes reject_missing
validate_failover route_id route_type route routes =
    if eq_str "failover" route_type
    then (do
      order ←
          need_order (get "order" route)
            ("route " <> route_id <> " failover order must contain at least two routes")
      missing ← missing_routes order routes
      reject_missing route_id missing)
    else ok tt

pub validate_lan_proxy : String → Json → Fields → Outcome (Unit {0})
validate_lan_proxy route_id route_type route =
    if eq_str "lanProxy" route_type
    then (do
      known ← in_set (get_or "policy" (str default_policy) route) split_policies
      fail_unless known ("route " <> route_id <> " policy is unsupported"))
    else ok tt

abbrev pub auth_ref_ok : Json → Bool
auth_ref_ok (str s) = starts_with s "adapter:sing-box:"
auth_ref_ok _ = false

pub validate_adapter : String → Json → Fields → Outcome (Unit {0})
validate_adapter route_id route_type route =
    if eq_str "adapter" route_type
    then (do
      fail_unless (eq_str "sing-box-outbound" (get "adapterKind" route))
          ("route " <> route_id <> " adapterKind is unsupported")
      fail_unless (auth_ref_ok (get "authRef" route))
          ("route " <> route_id <> " adapter authRef is required"))
    else ok tt

pub validate_kind : String → Json → Fields → Fields → Outcome (Unit {0})
unfolding validate_endpoint validate_failover validate_lan_proxy validate_adapter
validate_kind route_id route_type route routes = do
  validate_endpoint route_id route_type route
  validate_failover route_id route_type route routes
  validate_lan_proxy route_id route_type route
  validate_adapter route_id route_type route

-- _validate_route. The keys of a dict that JSON gives are texts.
pub validate_route : String → Json → Fields → Outcome (Unit {0})
unfolding validate_kind
validate_route route_id route routes = do
  fail_unless (not (route_id == "")) "route id must be a non-empty string"
  route ← need_dict route ("route " <> route_id <> " must be an object")
  known ← in_set (get "type" route) route_types
  fail_unless known ("route " <> route_id <> " has unsupported type")
  validate_kind route_id (get "type" route) route routes

pub validate_routes : Fields → Fields → Outcome (Unit {0})
unfolding validate_route
validate_routes end routes = ok tt
validate_routes (field route_id route rest) routes =
    validate_route route_id route routes >> validate_routes rest routes

-- one turn of the loop over "domestic", "private", "foreign"
pub validate_target : String → Json → Fields → Outcome (Unit {0})
validate_target key target routes =
    if truthy target && not (eq_str "direct" target)
    then (do
      found ← in_dict target routes
      fail_unless found ("splitRules " <> key <> " references missing route"))
    else ok tt

pub validate_split_rules : Fields → Fields → Outcome (Unit {0})
unfolding validate_target
validate_split_rules rules routes = do
  known ← in_set (get_or "policy" (str default_policy) rules) split_policies
  fail_unless known "splitRules policy is unsupported"
  validate_target "domestic" (get "domestic" rules) routes
  validate_target "private" (get "private" rules) routes
  validate_target "foreign" (get "foreign" rules) routes

-- isinstance(value, str) and value in routes
abbrev pub names_route : Json → Fields → Bool
names_route (str s) routes = has s routes
names_route _ routes = false

abbrev pub is_label : Json → Bool
is_label (str s) = not (s == "")
is_label _ = false

pub validate_region : ℕ → Json → Fields → Outcome (Unit {0})
validate_region index region routes = do
  region ← need_dict region ("ui region #" <> show_ℕ (index + 1) <> " must be an object")
  fail_unless (names_route (get "id" region) routes)
      ("ui region #" <> show_ℕ (index + 1) <> " id must reference a route")
  fail_unless (is_label (get "label" region))
      ("ui region #" <> show_ℕ (index + 1) <> " label is required")

pub validate_regions : ℕ → Items → Fields → Outcome (Unit {0})
unfolding validate_region
validate_regions index nil routes = ok tt
validate_regions index (cons region rest) routes =
    validate_region index region routes >> validate_regions (index + 1) rest routes

abbrev pub need_regions : Json → Outcome Items
need_regions (list regions) = ok regions
need_regions v =
    if truthy v then raised (profile_validation_error "ui regions must be a list") else ok nil

abbrev pub default_region_ok : Json → Fields → Bool
default_region_ok null routes = true
default_region_ok v routes = names_route v routes

pub validate_ui : Json → Fields → Outcome (Unit {0})
unfolding validate_regions
validate_ui ui routes = do
  ui ← need_dict ui "ui must be an object"
  fail_unless (default_region_ok (get "defaultRegion" ui) routes)
      "ui defaultRegion must reference a route"
  regions ← need_regions (get_or "regions" (arr []) ui)
  validate_regions 0 regions routes

-- `split_rules.get` on a value that is no dict raises `AttributeError`.
abbrev pub rules_of : Json → Outcome Fields
rules_of (dict fs) = ok fs
rules_of _ = raised attribute_error

abbrev pub need_routes : Json → Outcome Fields
need_routes (dict (field k v fs)) = ok (field k v fs)
need_routes _ = raised (profile_validation_error "routes must be a non-empty object")

abbrev pub is_dict : Json → Bool
is_dict (dict _) = true
is_dict _ = false

pub check_split_rules : Json → Fields → Outcome (Unit {0})
unfolding validate_split_rules
check_split_rules v routes =
    if truthy v then (do rules ← rules_of v; validate_split_rules rules routes) else ok tt

pub check_ui : Json → Fields → Outcome (Unit {0})
unfolding validate_ui
check_ui v routes = if truthy v then validate_ui v routes else ok tt

-- What `validate_profile` checks; it returns a deep copy, which as a value is the profile.
pub check_profile : Json → Outcome (Unit {0})
unfolding validate_routes check_split_rules check_ui
check_profile profile = do
  fs ← need_dict profile "profile must be an object"
  fail_unless (eq_ℕ 2 (get "version" fs)) "profile version must be 2"
  routes ← need_routes (get "routes" fs)
  validate_routes routes routes
  check_split_rules (get_or "splitRules" (obj []) fs) routes
  check_ui (get_or "ui" (obj []) fs) routes
  let privacy = get_or "privacy" (obj []) fs
  fail_unless (not (truthy privacy) || is_dict privacy) "privacy must be an object"
  reject_inline_secrets (dict fs) ""

unfoldable pub validate_profile : Json → Outcome Json
unfolding check_profile
validate_profile profile = check_profile profile >> ok profile
