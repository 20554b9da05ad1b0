-- ===== src/ProfileSchema/Migrate.antt =====
-- `redacted_profile_template` and `migrate_v1_runtime` of agent/profile_schema.py.
use proxy_gateway_console_pu.Json.{
  get_or, nil, list, arr, get, eq_str, truthy, dict_or_empty, put, end, int, cons, field, dict, nat,
  Items, Fields, str, obj, Json,
}
use proxy_gateway_console_pu.Outcome.{
  ◌>>=◌, ◌>>◌, type_error, attribute_error, raised, raise_if, ok, Outcome,
}
use proxy_gateway_console_pu.Prelude.{
  true, not, false, Bool, ◌<>◌, ◌&&◌, [], show_ℤ, ◌==◌, ◌∷◌, if◌then◌else◌, String,
}
use proxy_gateway_console_pu.ProfileSchema.{default_policy, validate_profile}

unfoldable pub redacted_profile_template : Json
redacted_profile_template = obj (
    ("version", nat 2)
    ∷ ("name", str "linux-lan-gateway")
    ∷ (
      "routes",
      obj (
          (
            "old",
            obj (
                ("type", str "http")
                ∷ ("endpoint", str "http://127.0.0.1:8118")
                ∷ ("authRef", str "usb-profile:old")
                ∷ []),
          )
          ∷ (
            "new",
            obj (
                ("type", str "http")
                ∷ ("endpoint", str "http://127.0.0.1:18122")
                ∷ ("authRef", str "usb-profile:new")
                ∷ []),
          )
          ∷ (
            "failover",
            obj (("type", str "failover") ∷ ("order", arr (str "old" ∷ str "new" ∷ [])) ∷ []),
          )
          ∷ (
            "lanProxy",
            obj (
                ("type", str "lanProxy")
                ∷ ("bind", str "dynamic")
                ∷ ("policy", str default_policy)
                ∷ []),
          )
          ∷ []),
    )
    ∷ (
      "splitRules",
      obj (
          ("policy", str default_policy)
          ∷ ("domestic", str "direct")
          ∷ ("private", str "direct")
          ∷ ("foreign", str "new")
          ∷ []),
    )
    ∷ ("privacy", obj (("logs", str "redacted") ∷ ("state", str "tmpfs-or-usb") ∷ []))
    ∷ [])

-- f"{value}" of a value that is a text or a number; Python's text of any other value is `other`.
module _ (other : Json → String) where
  unfoldable pub format : Json → String
  format (str s) = s
  format (int z) = show_ℤ z
  format v = other v

  -- {item.get("id"): item for item in ports if isinstance(item, dict)}, then .get(id, {}): the last
  -- dict with that id counts.
  port_by_id : String → Items → Fields → Fields
  port_by_id id nil found = found
  port_by_id id (cons (dict item) rest) found =
      port_by_id id rest (if eq_str id (get "id" item) then item else found)
  port_by_id id (cons _ rest) found = port_by_id id rest found

  -- profile["routes"][route][key] = value
  set_in_route : String → String → Json → Fields → Fields
  set_in_route route key value end = end
  set_in_route route key value (field k (dict fs) rest) =
      if k == route
      then field k (dict (put key value fs)) rest
      else field k (dict fs) (set_in_route route key value rest)
  set_in_route route key value (field k v rest) = field k v (set_in_route route key value rest)

  set_endpoint : String → Fields → Fields → Fields
  unfolding set_in_route format
  set_endpoint route port routes =
      if truthy (get "host" port) && truthy (get "port" port)
      then set_in_route route "endpoint"
          (str ("http://" <> format (get "host" port) <> ":" <> format (get "port" port))) routes
      else routes

  set_hint : Fields → Fields → Fields
  unfolding set_in_route
  set_hint lan routes =
      if truthy (get "setting" lan)
      then set_in_route "lanProxy" "settingHint" (get "setting" lan) routes
      else routes

  abbrev routes_of : Json → Fields
  routes_of (dict fs) = dict_or_empty (get "routes" fs)
  routes_of _ = end

  -- The profile before the last check.
  migrated : Items → Fields → Json
  unfolding redacted_profile_template port_by_id set_endpoint set_hint
  migrated ports iphone_lan =
      let routes = routes_of redacted_profile_template in
      let old = set_endpoint "old" (port_by_id "old-http" ports end) routes in
      let new = set_endpoint "new" (port_by_id "new-http" ports end) old in
      let failover = set_endpoint "failover" (port_by_id "failover" ports end) new in
      let lan = set_hint iphone_lan failover in
      dict (put "routes" (dict lan) (dict_or_empty redacted_profile_template))

  -- `for item in v`: a dict gives its keys and a text its characters, which are no dicts.
  abbrev ports_of : Json → Outcome Items
  ports_of (list xs) = ok xs
  ports_of (dict fs) = ok nil
  ports_of (str s) = ok nil
  ports_of v = raised type_error

  abbrev is_hashable : Json → Bool
  is_hashable (list xs) = false
  is_hashable (dict fs) = false
  is_hashable v = true

  -- An id is a key of the comprehension, so it is hashed.
  hash_ids : Items → Outcome (Unit {0})
  hash_ids nil = ok tt
  hash_ids (cons (dict item) rest) =
      raise_if (not (is_hashable (get "id" item))) type_error >> hash_ids rest
  hash_ids (cons _ rest) = hash_ids rest

  abbrev lan_of : Json → Outcome Fields
  lan_of (dict fs) = ok fs
  lan_of v = raised attribute_error

  unfoldable pub migrate_v1_runtime : Fields → Outcome Json
  unfolding migrated hash_ids
  migrate_v1_runtime runtime = do
    ports ← ports_of (get_or "ports" (arr []) runtime)
    hash_ids ports
    iphone_lan ← lan_of (get_or "iphone_lan_proxy" (obj []) runtime)
    validate_profile (migrated ports iphone_lan)
