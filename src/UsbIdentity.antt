-- ===== src/UsbIdentity.antt =====
-- agent/usb_identity.py: the recovery medium and its public manifest.
pub mod Trust
use proxy_gateway_console_pu.Prelude.{
  none, map, some, is_some, ◌||◌, ltb, [], ◌==◌, ◌<>◌, false, ◌∷◌, not, true, Option, if◌then◌else◌,
  Bool, String, List,
}
use proxy_gateway_console_pu.SessionStore.{json, File, FilePath, World}
use proxy_gateway_console_pu.Json.{
  has, eq_ℕ, get_or, arr, null, truthy, get, nat, bool, obj, fields, eq_str, str, dict, Fields,
  Json, merge,
}
use proxy_gateway_console_pu.Host.{Host}
use Prim.Native.String.{count}

-- manifest.get("marker") or manifest.get("trustId")
abbrev marker_of : Fields → Json
marker_of manifest =
    if truthy (get "marker" manifest) then get "marker" manifest else get "trustId" manifest

-- not isinstance(marker, str) or len(marker) < 12
abbrev marker_short : Json → Bool
marker_short (str s) = ltb (count s) 12
marker_short v = true

abbrev note : Bool → String → List String → List String
note true message errors = message ∷ errors
note false message errors = errors

-- The four tests append their messages in this order.
manifest_errors : Fields → List String
manifest_errors manifest =
    note (not (eq_str "PROXY_GATEWAY" (get "product" manifest))) "manifest product mismatch" (
      note (not (eq_ℕ 2 (get "version" manifest))) "manifest version mismatch" (
        note (marker_short (marker_of manifest)) "manifest marker is missing or too short" (
          note (has "secret" manifest || has "password" manifest || has "token" manifest)
            "manifest contains secret-like fields" [])))

unfoldable pub validate_usb_manifest : Json → List String
unfolding manifest_errors
validate_usb_manifest (dict manifest) = manifest_errors manifest
validate_usb_manifest v = "manifest must be an object" ∷ []

unfoldable pub recovery_manifest_template : Json
recovery_manifest_template = obj (
    ("product", str "PROXY_GATEWAY")
    ∷ ("version", nat 2)
    ∷ ("marker", str "replace-with-local-random-marker")
    ∷ ("label", str "Linux LAN Gateway Recovery")
    ∷ ("policy", str "public-marker-only")
    ∷ [])

abbrev marker_present : Json → Bool
marker_present (str s) = not (s == "")
marker_present v = false

summary_of : Json → Json
summary_of (dict manifest) = obj (
    ("product", get "product" manifest)
    ∷ ("version", get "version" manifest)
    ∷ ("label", get_or "label" (str "") manifest)
    ∷ ("markerPresent", bool (marker_present (marker_of manifest)))
    ∷ [])
summary_of v = null

-- _status
unfoldable pub usb_report : String → Json → Bool → String → List String → Fields
unfolding summary_of
usb_report root manifest verified state errors = fields (
    ("present", bool true)
    ∷ ("trusted", bool verified)
    ∷ ("state", str state)
    ∷ ("root", str root)
    ∷ ("manifest", summary_of manifest)
    ∷ ("errors", arr (map str errors))
    ∷ [])

unfoldable pub absent_report : String → String → List String → Fields
absent_report state root errors = fields (
    ("present", bool false)
    ∷ ("trusted", bool false)
    ∷ ("state", str state)
    ∷ ("root", str root)
    ∷ ("manifest", null)
    ∷ ("errors", arr (map str errors))
    ∷ [])

abbrev pub manifest_path : String → FilePath
manifest_path root = record { dir = root; name = "manifest.json" }

abbrev pub usb_profile_path : String → FilePath
usb_profile_path root = record { dir = root <> "/profile"; name = "profile.json.enc" }

abbrev no_texts : List String → Bool
no_texts [] = true
no_texts (_ ∷ _) = false

verified_report : String → Json → Bool → Fields
unfolding usb_report validate_usb_manifest
verified_report root manifest profile_present =
    let errors = validate_usb_manifest manifest in
    merge
      (usb_report root manifest (no_texts errors)
        (if no_texts errors then "trusted" else "untrusted") errors)
      (fields (
        ("profilePresent", bool profile_present)
        ∷ ("profilePath", str (root <> "/profile/profile.json.enc"))
        ∷ []))

-- What reading the manifest gives.
read_manifest : String → Option File → Bool → Fields
unfolding usb_report verified_report merge
read_manifest root none profile_present =
    usb_report root null false "manifest_missing" ("manifest.json missing" ∷ [])
read_manifest root (some (json manifest)) profile_present =
    verified_report root manifest profile_present
read_manifest root (some _) profile_present =
    usb_report root null false "manifest_invalid" ("manifest.json is not valid JSON" ∷ [])

-- `configured` is the argument, or else the environment's root; `exists` says whether it is there.
detect_root : (String → Bool) → World → String → Fields
unfolding absent_report read_manifest
detect_root exists w root =
    if root == ""
    then absent_report "not_configured" "" []
    else if not (exists root)
    then absent_report "missing" root ("usb root does not exist" ∷ [])
    else read_manifest root (w.files (manifest_path root))
        (is_some (w.files (usb_profile_path root)))

-- `root or os.environ.get(USB_ROOT_ENV)`, with "" for what is not set
unfoldable pub detect_usb : Host → World → String → Fields
unfolding detect_root
detect_usb h w root =
    let configured = if root == "" then h.usb_root else root in
    detect_root h.exists w (if configured == "" then "" else h.expanduser configured)

-- usb.get("state") in {"missing", "manifest_missing", "manifest_invalid", "untrusted"}
abbrev pub is_bad_usb : Fields → Bool
is_bad_usb usb =
    eq_str "missing" (get "state" usb)
    || eq_str "manifest_missing" (get "state" usb)
    || eq_str "manifest_invalid" (get "state" usb)
    || eq_str "untrusted" (get "state" usb)
