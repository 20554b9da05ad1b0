-- ===== src/RoutePolicy.antt =====
-- agent/route_policy.py: which route a target takes.
use proxy_gateway_console_pu.Prelude.{
  ◌=?◌, code, Char, [], ◌∷◌, ◌==◌, ◌||◌, lower, strip, before, ends_with, if◌then◌else◌, none, some,
  Bool, String, Option,
}
use proxy_gateway_console_pu.Json.{
  Json, Fields, str, bool, get_or, obj, list, eq_str, arr, nil, Items,
}
use proxy_gateway_console_pu.Outcome.{Outcome, ok, ◌>>=◌}
use proxy_gateway_console_pu.RuntimeLauncher.Plan.{dict_of}

abbrev pub is_bracket : Char → Bool
is_bracket c = code c =? b'[' || code c =? b']'

-- target.split(":", 1)[0]
abbrev pub host_part : String → String
host_part target = before b':' target

unfoldable pub decision : Json → String → Json
decision route reason =
    obj (("route", route) ∷ ("direct", bool (eq_str "direct" route)) ∷ ("reason", str reason) ∷ [])

-- _is_domestic_hint
unfoldable pub is_domestic_hint : String → Bool
is_domestic_hint target =
    let host = lower (host_part target) in ends_with host ".cn" || ends_with host ".com.cn"

-- failover_order
unfoldable pub failover_order : Fields → String → Outcome Items
failover_order profile route_id = do
  routes ← dict_of (get_or "routes" (obj []) profile)
  route ← dict_of (get_or route_id (obj []) routes)
  ok (elim (get_or "order" (arr []) route) [ list xs ↦ xs | _ ↦ nil ])

-- `ip_address(host)`: none where it raises `ValueError`, else whether the address is private, loopback
-- or link-local.
module _ (is_local_ip : String → Option Bool) where
  unfoldable pub is_private_target : String → Bool
  is_private_target target =
      let host = strip is_bracket (host_part target) in
      elim (is_local_ip host) [
        | none ↦ ends_with host ".local" || host == "localhost"
        | some local ↦ local
      ]

  unfoldable pub decide_by_rules : String → Fields → Json
  decide_by_rules target rules =
      let policy = get_or "policy" (str "cn-private-direct-foreign-proxy") rules in
      if eq_str "all-direct" policy
      then decision (str "direct") "policy-all-direct"
      else if eq_str "all-proxy" policy
      then decision (get_or "foreign" (str "new") rules) "policy-all-proxy"
      else if is_private_target target
      then decision (get_or "private" (str "direct") rules) "private"
      else if is_domestic_hint target
      then decision (get_or "domestic" (str "direct") rules) "domestic-hint"
      else decision (get_or "foreign" (str "new") rules) "foreign-default"

  unfoldable pub decide_route : String → Fields → Outcome Json
  decide_route target profile = do
    rules ← dict_of (get_or "splitRules" (obj []) profile)
    ok (decide_by_rules target rules)
