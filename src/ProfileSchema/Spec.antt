-- ===== src/ProfileSchema/Spec.antt =====
-- What a valid profile is, said without the order in which agent/profile_schema.py checks it.
use proxy_gateway_console_pu.Prelude.{
  ◌≤◌, String, ◌≡◌, ◌≢◌, ◌⊎◌, true, false, [], length, All, starts_with,
}
use proxy_gateway_console_pu.Json.{
  Json, null, str, list, dict, Items, Fields, end, field, elems, get, get_or, has, truthy, eq_ℕ,
  obj, arr,
}
use proxy_gateway_console_pu.ProfileSchema.{default_policy, is_endpoint}
use proxy_gateway_console_pu.ProfileSchema.Secrets.{HasNoSecret}

abbrev pub NamesRoute : Fields → Json → Type 0
NamesRoute routes v = (s : String) × (v ≡ str s) × (has s routes ≡ true)

abbrev pub IsPolicy : Json → Type 0
IsPolicy v = (v ≡ str default_policy) ⊎ ((v ≡ str "all-proxy") ⊎ (v ≡ str "all-direct"))

-- One constructor for each type of route, with what that type asks of the entries.
pub data IsRoute (routes route : Fields) : Type 0 where
  http :
      (e : String)
      → get "type" route ≡ str "http"
      → get "endpoint" route ≡ str e
      → is_endpoint e ≡ true
      → IsRoute routes route
  socks :
      (e : String)
      → get "type" route ≡ str "socks"
      → get "endpoint" route ≡ str e
      → is_endpoint e ≡ true
      → IsRoute routes route
  failover :
      (order : Items)
      → get "type" route ≡ str "failover"
      → get "order" route ≡ list order
      → 2 ≤ length (elems order)
      → All (NamesRoute routes) (elems order)
      → IsRoute routes route
  lan_proxy :
      get "type" route ≡ str "lanProxy"
      → IsPolicy (get_or "policy" (str default_policy) route)
      → IsRoute routes route
  direct : get "type" route ≡ str "direct" → IsRoute routes route
  adapter :
      (ref : String)
      → get "type" route ≡ str "adapter"
      → get "adapterKind" route ≡ str "sing-box-outbound"
      → get "authRef" route ≡ str ref
      → starts_with ref "adapter:sing-box:" ≡ true
      → IsRoute routes route

abbrev pub IsRouteEntry : Fields → String → Json → Type 0
IsRouteEntry routes id v = (id ≢ "") × ((route : Fields) × (v ≡ dict route) × IsRoute routes route)

abbrev pub EachRoute : Fields → Fields → Type 0
EachRoute routes end = Unit
EachRoute routes (field id v rest) = IsRouteEntry routes id v × EachRoute routes rest

-- Absent (or any other value that counts as false), "direct", or the name of a route.
abbrev pub IsTarget : Fields → Json → Type 0
IsTarget routes v = (truthy v ≡ false) ⊎ ((v ≡ str "direct") ⊎ NamesRoute routes v)

pub record IsRules (routes rules : Fields) : Type 0 where
  pub policy : IsPolicy (get_or "policy" (str default_policy) rules)
  pub domestic : IsTarget routes (get "domestic" rules)
  pub private : IsTarget routes (get "private" rules)
  pub foreign : IsTarget routes (get "foreign" rules)

abbrev pub IsRegion : Fields → Json → Type 0
IsRegion routes v =
    (region : Fields) × (v ≡ dict region)
    × NamesRoute routes (get "id" region)
    × ((label : String) × (get "label" region ≡ str label) × (label ≢ ""))

abbrev pub AreRegions : Fields → Json → Type 0
AreRegions routes v =
    (truthy v ≡ false) ⊎ ((xs : Items) × (v ≡ list xs) × All (IsRegion routes) (elems xs))

pub record IsUi (routes ui : Fields) : Type 0 where
  pub default_region : (get "defaultRegion" ui ≡ null) ⊎ NamesRoute routes (get "defaultRegion" ui)
  pub regions : AreRegions routes (get_or "regions" (arr []) ui)

-- A section of the profile that may be left out.
abbrev pub Optional : (Fields → Type 0) → Json → Type 0
Optional P v = (truthy v ≡ false) ⊎ ((fs : Fields) × (v ≡ dict fs) × P fs)

pub record IsProfile (fs : Fields) : Type 0 where
  pub version : eq_ℕ 2 (get "version" fs) ≡ true
  pub routes : Fields
  pub routes_at : get "routes" fs ≡ dict routes
  pub nonempty : routes ≢ end
  pub each : EachRoute routes routes
  pub rules : Optional (IsRules routes) (get_or "splitRules" (obj []) fs)
  pub ui : Optional (IsUi routes) (get_or "ui" (obj []) fs)
  pub privacy : Optional (λ _. Unit) (get_or "privacy" (obj []) fs)
  pub no_secret : HasNoSecret (dict fs)
