-- ===== src/Tests/Profile.antt =====
-- The theorems on profiles and on the recovery medium, at concrete data.
use proxy_gateway_console_pu.UsbIdentity.Trust.{validate_usb_manifest_iff, IsTrusted}
use proxy_gateway_console_pu.Json.{nat, str, arr, fields, obj, dict, Fields, Json}
use proxy_gateway_console_pu.ProfileSchema.Valid.{validate_profile_iff}
use proxy_gateway_console_pu.ProfileSchema.Routes.{validate_routes_iff}
use proxy_gateway_console_pu.ProfileSchema.Secrets.{
  reject_inline_secrets_iff, HasNoSecret, reject_inline_secrets,
}
use proxy_gateway_console_pu.ProfileSchema.Spec.{IsProfile, EachRoute}
use proxy_gateway_console_pu.SessionStore.Redact.{
  redact_payload-IsRedacted, redact_payload, IsRedacted,
}
use proxy_gateway_console_pu.Prelude.{[], ◌∷◌, ◌≡◌, ◌↔◌}
use proxy_gateway_console_pu.Outcome.{ok}
use proxy_gateway_console_pu.ProfileSchema.{validate_profile, validate_routes}
use proxy_gateway_console_pu.UsbIdentity.{validate_usb_manifest}
use proxy_gateway_console_pu.Tests.Sample.{routes, sample_profile}

abbrev manifest : Fields
manifest = fields (
    ("product", str "PROXY_GATEWAY") ∷ ("version", nat 2) ∷ ("marker", str "0123456789abcdef") ∷ [])

abbrev with_secret : Json
with_secret = obj (("a", arr (obj (("password", str "") ∷ ("token", str "x") ∷ []) ∷ [])) ∷ [])

validate_profile_iff_example : (validate_profile sample_profile ≡ ok sample_profile) ↔ (
    (sample_profile ≡ sample_profile) × ((fs : Fields) × (sample_profile ≡ dict fs) × IsProfile fs))
validate_profile_iff_example = validate_profile_iff sample_profile sample_profile

validate_routes_iff_example : (validate_routes routes routes ≡ ok tt) ↔ EachRoute routes routes
validate_routes_iff_example = validate_routes_iff routes routes

reject_inline_secrets_iff_example :
    (reject_inline_secrets with_secret "" ≡ ok tt) ↔ HasNoSecret with_secret
reject_inline_secrets_iff_example = reject_inline_secrets_iff with_secret ""

redact_payload-IsRedacted_example : IsRedacted (redact_payload with_secret)
redact_payload-IsRedacted_example = redact_payload-IsRedacted with_secret

validate_usb_manifest_iff_example :
    (validate_usb_manifest (dict manifest) ≡ [])
    ↔ ((gs : Fields) × (dict manifest ≡ dict gs) × IsTrusted gs)
validate_usb_manifest_iff_example = validate_usb_manifest_iff (dict manifest)
