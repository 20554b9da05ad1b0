-- ===== src/ProfileCrypto.antt =====
-- agent/profile_crypto.py. The cipher, the key derivation, base64, the hash and the JSON text are those
-- of libraries, so they are parameters.
use proxy_gateway_console_pu.Prelude.{
  length, map, ◌∷◌, false, not, ◌==◌, [], true, none, ◌<>◌, if◌then◌else◌, some, List, String, ℕ,
  Option, Bool,
}
use proxy_gateway_console_pu.Json.{
  keys, eq_ℕ, get, nat, arr, eq_str, lookup, str, end, bool, obj, get_or, fields, dict, Fields,
  Json,
}
use proxy_gateway_console_pu.Outcome.{
  attribute_error, profile_crypto_error, invalid_tag, profile_validation_error, ok, raised, Outcome,
}
use proxy_gateway_console_pu.SessionStore.{json, File, World, FilePath}
use proxy_gateway_console_pu.ProfileSchema.{validate_profile}
use proxy_gateway_console_pu.RuntimeLauncher.Plan.{sorted}

abbrev pub Bytes : Type 0
Bytes = List ℕ

pub record Crypto : Type 0 where
  -- PBKDF2HMAC(…).derive; AESGCM(key).encrypt and .decrypt of a nonce, a text and the associated data.
  -- `decrypt` raises `InvalidTag`, or `ValueError` for a nonce of a wrong length.
  pub derive_key : String → Bytes → Bytes
  pub encrypt : Bytes → Bytes → Bytes → Bytes → Bytes
  pub decrypt : Bytes → Bytes → Bytes → Bytes → Outcome Bytes
  -- os.urandom
  pub salt : Bytes
  pub nonce : Bytes
  -- _b64encode; _b64decode of a text, none where it raises `ValueError`
  pub b64encode : Bytes → String
  pub b64decode : String → Option Bytes
  -- text.encode
  pub encode : String → Bytes
  -- `json.dumps` with `sort_keys` as given, the separators "," and ":" and `ensure_ascii=False`
  pub dumps : Bool → Json → String
  -- `json.loads` of the decoded bytes, none where either raises
  pub loads : Bytes → Option Json
  pub sha256 : Bytes → String

abbrev crypto_error : {A : Type 0} → String → Outcome A
crypto_error message = raised (profile_crypto_error message)

abbrev pub iterations : ℕ
iterations = 390000

-- The fields that `_validate_envelope` compares, in its order.
abbrev envelope_ok : Fields → Outcome (Unit {0})
envelope_ok fs =
    if not (eq_str "PROXY_GATEWAY_PROFILE" (get "product" fs))
    then crypto_error "encrypted profile product mismatch"
    else if not (eq_ℕ 1 (get "version" fs))
    then crypto_error "encrypted profile version mismatch"
    else if not (eq_str "AES-256-GCM" (get "algorithm" fs))
    then crypto_error "encrypted profile algorithm mismatch"
    else if not (eq_str "PBKDF2-HMAC-SHA256" (get "kdf" fs))
    then crypto_error "encrypted profile kdf mismatch"
    else if not (eq_ℕ iterations (get "iterations" fs))
    then crypto_error "encrypted profile iterations mismatch"
    else ok tt

unfoldable pub validate_envelope : Json → Outcome (Unit {0})
validate_envelope (dict fs) = envelope_ok fs
validate_envelope v = crypto_error "encrypted profile envelope must be an object"

unfoldable pub envelope : String → String → String → Json
envelope salt nonce ciphertext = obj (
    ("product", str "PROXY_GATEWAY_PROFILE")
    ∷ ("version", nat 1)
    ∷ ("algorithm", str "AES-256-GCM")
    ∷ ("kdf", str "PBKDF2-HMAC-SHA256")
    ∷ ("iterations", nat iterations)
    ∷ ("salt", str salt)
    ∷ ("nonce", str nonce)
    ∷ ("ciphertext", str ciphertext)
    ∷ [])

abbrev malformed : {A : Type 0} → Outcome A
malformed = crypto_error "encrypted profile is malformed"

abbrev decoded : Option Bytes → Outcome Bytes
decoded none = malformed
decoded (some b) = ok b

abbrev bind {ℓ} : {A B : Type ℓ} → Outcome A → (A → Outcome B) → Outcome B
bind (ok a) f = f a
bind (raised e) f = raised e

abbrev fields_of : Json → Fields
fields_of (dict fs) = fs
fields_of v = end

module _ (c : Crypto) where
  -- AAD
  unfoldable pub associated_text : Bytes
  associated_text = c.encode "PROXY_GATEWAY_PROFILE:v1"

  -- _canonical_json, encoded
  unfoldable pub canonical_json : Json → Bytes
  canonical_json payload = c.encode (c.dumps true payload)

  unfoldable pub encrypt_profile : Json → String → Outcome Json
  unfolding validate_profile envelope
  encrypt_profile profile passphrase =
      if passphrase == ""
      then crypto_error "passphrase is required"
      else bind (validate_profile profile) λ validated. ok (
          envelope (c.b64encode c.salt) (c.b64encode c.nonce) (
            c.b64encode (
              c.encrypt (c.derive_key passphrase c.salt) c.nonce (canonical_json validated)
                associated_text)))

  -- _b64decode(envelope[key]): `KeyError` is caught, the `AttributeError` of a value that is no text
  -- is not.
  b64_field : Option Json → Outcome Bytes
  b64_field none = malformed
  b64_field (some (str s)) = decoded (c.b64decode s)
  b64_field (some v) = raised attribute_error

  -- except InvalidTag
  opened : Outcome Bytes → Outcome Bytes
  opened (ok b) = ok b
  opened (raised invalid_tag) = crypto_error "profile passphrase is invalid or profile is corrupted"
  opened (raised e) = raised e

  -- except ProfileValidationError
  accepted : Outcome Json → Outcome Json
  accepted (ok p) = ok p
  accepted (raised (profile_validation_error m)) = crypto_error ("profile validation failed: " <> m)
  accepted (raised e) = raised e

  parse_profile : Option Json → Outcome Json
  unfolding accepted
  parse_profile none = crypto_error "profile validation failed: not a JSON text"
  parse_profile (some p) = accepted (validate_profile p)

  unfoldable pub decrypt_profile : Json → String → Outcome Json
  unfolding validate_envelope b64_field opened parse_profile
  decrypt_profile e passphrase =
      if passphrase == ""
      then crypto_error "passphrase is required"
      else bind (validate_envelope e) λ _. bind (b64_field (lookup "salt" (fields_of e))) λ salt.
        bind (b64_field (lookup "nonce" (fields_of e))) λ nonce.
          bind (b64_field (lookup "ciphertext" (fields_of e))) λ ciphertext.
            bind
              (opened (c.decrypt (c.derive_key passphrase salt) nonce ciphertext associated_text))
              λ plaintext. parse_profile (c.loads plaintext)

  unfoldable pub profile_digest : Json → Outcome String
  profile_digest profile = bind (validate_profile profile) λ p. ok (c.sha256 (canonical_json p))

  -- What a file of a profile holds.
  read_envelope : Option File → Outcome Json
  read_envelope none = crypto_error "encrypted profile is missing"
  read_envelope (some (json v)) = ok v
  read_envelope (some f) = crypto_error "encrypted profile is not valid JSON"

  unfoldable pub read_encrypted_profile : World → FilePath → String → Outcome Json
  unfolding read_envelope decrypt_profile
  read_encrypted_profile w path passphrase =
      bind (read_envelope (w.files path)) λ e. decrypt_profile e passphrase

-- The profile is a dict, and its routes are one, as `validate_profile` ensures; `splitRules` may be
-- missing, and `sorted(routes)` is the sorted keys.
unfoldable pub profile_summary : Json → Json
unfolding sorted
profile_summary profile =
    let fs = fields_of profile in
    let routes = fields_of (get_or "routes" (obj []) fs) in
    obj (
      ("name", get_or "name" (str "linux-lan-gateway") fs)
      ∷ ("routeIds", arr (map str (sorted (keys routes))))
      ∷ ("routeCount", nat (length (keys routes)))
      ∷ (
        "splitPolicy",
        get_or "policy" (str "unknown") (fields_of (get_or "splitRules" (obj []) fs)),
      )
      ∷ ("privacy", get_or "privacy" (obj []) fs)
      ∷ [])

abbrev path_text : FilePath → String
path_text p = p.dir <> "/" <> p.name

unfoldable pub status_dict : Bool → String → FilePath → List String → Fields
status_dict present state path errors = fields (
    ("present", bool present)
    ∷ ("state", str state)
    ∷ ("path", str (path_text path))
    ∷ ("errors", arr (map str errors))
    ∷ [])

envelope_status : Outcome (Unit {0}) → FilePath → Fields
unfolding status_dict
envelope_status (ok _) path = status_dict true "encrypted_profile_present" path []
envelope_status (raised (profile_crypto_error m)) path =
    status_dict true "invalid_envelope" path (m ∷ [])
envelope_status (raised e) path = status_dict true "invalid_envelope" path []

unfoldable pub encrypted_profile_status : World → FilePath → Fields
unfolding envelope_status validate_envelope status_dict
encrypted_profile_status w path = elim (w.files path) [
  | none ↦ status_dict false "missing" path ("encrypted profile is missing" ∷ [])
  | some f ↦ elim f [
    | json v ↦ envelope_status (validate_envelope v) path
    | _ ↦ status_dict true "invalid_json" path ("encrypted profile is not valid JSON" ∷ [])
  ]
]
