-- ===== src/RuntimeLauncher/Plan.antt =====
-- `build_runtime_plan` and `_valid_listener` of agent/runtime_launcher.py.
use proxy_gateway_console_pu.Prelude.{
  leb, none, ltb, ◌<>◌, map, pos, ◌==◌, ◌&&◌, false, not, [], true, some, if◌then◌else◌, ℤ, Bool,
  ◌∷◌, Option, String, List,
}
use proxy_gateway_console_pu.Json.{
  end, null, truthy, nat, arr, keys, field, get, get_or, bool, int, dict, str, obj, Json, Fields,
}
use proxy_gateway_console_pu.Outcome.{attribute_error, raised, ok, ◌>>=◌, Outcome}
use Prim.Native.Nat.{Ordering}
use Prim.Native.String.{compare as compare_str}

-- isinstance(v, int), and the number; a Boolean is an integer in Python
abbrev pub as_int : Json → Option ℤ
as_int (int z) = some z
as_int (bool true) = some (pos 1)
as_int (bool false) = some (pos 0)
as_int v = none

abbrev pub in_port_range : Option ℤ → Bool
in_port_range (some (pos n)) = ltb 0 n && leb n 65535
in_port_range o = false

abbrev pub is_host : Json → Bool
is_host (str s) = not (s == "")
is_host v = false

unfoldable pub valid_listener : Fields → Bool
valid_listener listener =
    is_host (get "host" listener) && in_port_range (as_int (get "port" listener))

-- sorted(texts)
insert_str : String → List String → List String
insert_str x [] = x ∷ []
insert_str x (y ∷ ys) = elim (compare_str x y) [
  | Ordering.gt ↦ y ∷ insert_str x ys
  | _ ↦ x ∷ y ∷ ys
]

unfoldable pub sorted : List String → List String
unfolding insert_str
sorted [] = []
sorted (x ∷ xs) = insert_str x (sorted xs)

-- `value.get` and `value.items` on what is no dict raise `AttributeError`.
abbrev pub dict_of : Json → Outcome Fields
dict_of (dict fs) = ok fs
dict_of v = raised attribute_error

-- `x.get(k, {}) if x else {}`
abbrev pub get_dict : String → Json → Outcome Json
get_dict k v = if truthy v then dict_of v >>= (λ fs. ok (get_or k (obj []) fs)) else ok (obj [])

abbrev pub v1_fallback : List Json
v1_fallback =
    str "proxy-failover.service"
    ∷ str "iphone-lan-proxy.service"
    ∷ str "hotspot-split-proxy.service"
    ∷ str "hotspot-split-dns.service"
    ∷ []

unfoldable pub planned_child : String → Fields → Json
planned_child id listener = obj (
    ("id", str id)
    ∷ ("host", get_or "host" (str "") listener)
    ∷ ("port", get_or "port" (nat 0) listener)
    ∷ ("action", str "planned")
    ∷ [])

-- The loop over the listeners: the children and the errors, in order.
unfoldable pub plan_listeners : Fields → Outcome (List Json × List Json)
unfolding valid_listener planned_child
plan_listeners end = ok ([], [])
plan_listeners (field id v rest) = do
  listener ← dict_of v
  (children, errors) ← plan_listeners rest
  ok (
      if valid_listener listener
      then (planned_child id listener ∷ children, errors)
      else (children, str ("invalid listener: " <> id) ∷ errors))

abbrev is_none : Json → Bool
is_none null = true
is_none v = false

abbrev pub no_errors : List Json → Bool
no_errors [] = true
no_errors (_ ∷ _) = false

abbrev pub fallback : Json
fallback = obj (("enabled", bool true) ∷ ("services", arr v1_fallback) ∷ [])

unfoldable pub runtime_plan : List Json → List Json → List String → Bool → Json
unfolding sorted
runtime_plan children errors routes loaded = obj (
    ("ok", bool (no_errors errors))
    ∷ ("mode", str "dry-run")
    ∷ (
      "summary",
      str (
          if no_errors errors
          then "runtime child services are planned only; v1 fallback remains active"
          else "runtime plan has invalid listeners"),
    )
    ∷ ("children", arr children)
    ∷ ("errors", arr errors)
    ∷ ("routes", arr (map str (sorted routes)))
    ∷ ("profileLoaded", bool loaded)
    ∷ ("fallback", fallback)
    ∷ [])

-- `None` is `null`. The profile comes from `validate_profile`, so its routes are a dict.
unfoldable pub build_runtime_plan : Json → Json → Outcome Json
unfolding plan_listeners runtime_plan
build_runtime_plan session profile = do
  listeners ← get_dict "listeners" session
  routes ← get_dict "routes" profile
  listeners ← dict_of listeners
  (children, errors) ← plan_listeners listeners
  routes ← dict_of routes
  ok (runtime_plan children errors (keys routes) (not (is_none profile)))
