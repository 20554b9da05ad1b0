-- ===== src/Tests/Upstream.antt =====
-- The theorem on imports, at concrete data, and an import that the schema refuses.
use proxy_gateway_console_pu.UpstreamProfile.{
  add_outbound, add_tag, normalize_route_id, sub_dashes, add_route, imported,
}
use proxy_gateway_console_pu.Prelude.{strip, lower}
use proxy_gateway_console_pu.SessionStore.Redact.{take_str}
use proxy_gateway_console_pu.Json.{put, merge}
use proxy_gateway_console_pu.ProfileSchema.{validate_profile}
use proxy_gateway_console_pu.ProfileSchema.Secrets.{reject_inline_secrets, is_secret_key}
use proxy_gateway_console_pu.Prelude.{true, refl, [], ◌⊎◌, ◌∷◌, ◌≡◌, All}
use proxy_gateway_console_pu.Outcome.{profile_validation_error, raised}
use proxy_gateway_console_pu.Json.{null, has, str, obj, end, items, arr, Items, keys, fields}
use proxy_gateway_console_pu.ProfileSchema.Spec.{IsRegion}
use proxy_gateway_console_pu.UpstreamProfile.{
  add_outbounds, default_region, no_import, upstream_to_profile,
}
use proxy_gateway_console_pu.UpstreamProfile.Default.{add_outbounds-IsRegion_default}

abbrev outbounds : Items
outbounds = items (
    obj (("tag", str " HK 01 ") ∷ [])
    ∷ obj (("tag", str "hk-01") ∷ [])
    ∷ null
    ∷ obj (("tag", str "2-us") ∷ [])
    ∷ [])

two_routes : keys (add_outbounds outbounds no_import).routes ≡ "hk-01" ∷ "route-2-us" ∷ []
unfolding add_outbounds add_outbound add_tag strip normalize_route_id sub_dashes lower take_str
    add_route put
two_routes = refl

add_outbounds-IsRegion_default_example :
    All
      (IsRegion (add_outbounds outbounds no_import).routes)
      (add_outbounds outbounds no_import).regions
    × (((add_outbounds outbounds no_import).routes ≡ end)
        ⊎ (has
              (default_region (str "2-us") (add_outbounds outbounds no_import).routes)
              (add_outbounds outbounds no_import).routes
            ≡ true))
add_outbounds-IsRegion_default_example = add_outbounds-IsRegion_default outbounds (str "2-us")

-- An outbound that is tagged "token".
token_refused :
    upstream_to_profile
      (fields (("outbounds", arr (obj (("tag", str "token") ∷ []) ∷ [])) ∷ []))
      "n"
    ≡ raised (profile_validation_error "inline secret field is not allowed: routes.token")
unfolding upstream_to_profile add_outbounds add_outbound add_tag strip normalize_route_id sub_dashes
    lower take_str add_route put validate_profile imported merge default_region
    reject_inline_secrets is_secret_key
token_refused = refl
