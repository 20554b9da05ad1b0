-- ===== src/UnlockServer.antt =====
-- agent/unlock_server.py: the unlock token. The HTML page is left out.
pub mod Expiry
use proxy_gateway_console_pu.Host.{aware, naive, naive, aware, utc_now_iso, Host}
use proxy_gateway_console_pu.Outcome.{
  type_error, type_error, attribute_error, profile_crypto_error, raised, ok, Outcome,
}
use proxy_gateway_console_pu.Prelude.{
  ◌*◌, ◌+◌, leb, [], none, ◌∷◌, ◌&&◌, some, ◌==◌, true, false, not, List, Option, if◌then◌else◌,
  Bool, String, ℕ,
}
use proxy_gateway_console_pu.Json.{
  nat, null, end, truthy, fields, field, without, get, obj, get_or, dict, str, Fields, bool, Json,
}
use proxy_gateway_console_pu.UsbIdentity.{is_bad_usb, detect_usb}
use proxy_gateway_console_pu.ProfileCrypto.{
  profile_summary, profile_digest, read_encrypted_profile, Crypto,
}
use proxy_gateway_console_pu.SessionStore.{
  pure, write_event, lift, FilePath, write_token, remove_token, read_token, Action, ◌>>=◌, ◌>>◌,
}

abbrev pub fields_of : Json → Fields
fields_of (dict fs) = fs
fields_of v = end

-- `value.get` on a value that counts as true raises `AttributeError` unless it is a dict.
abbrev pub has_get : Json → Outcome (Unit {0})
has_get (dict fs) = ok tt
has_get v = if truthy v then raised attribute_error else ok tt

module _ (h : Host) where
  -- A time without an offset cannot be compared with one that has it.
  unfoldable pub expired_at : Json → Outcome Bool
  expired_at (str s) = if s == "" then ok true else elim (h.from_iso s) [
    | none ↦ ok true
    | some (aware parsed) ↦ ok (leb parsed h.now)
    | some naive ↦ raised type_error
  ]
  expired_at v = ok true

  -- _token_expired
  unfoldable pub token_expired : Fields → Outcome Bool
  token_expired token = expired_at (get "expiresAt" token)

  -- The answer, for the token that is left (`null` for none).
  unfoldable pub unlock_report : Json → Bool → Fields → Json
  unlock_report token expired usb = obj (
      ("ok", bool true)
      ∷ (
        "state",
        str (if is_bad_usb usb then "blocked" else if truthy token then "unlocked" else "locked"),
      )
      ∷ ("bind", str "127.0.0.1")
      ∷ ("tokenPresent", bool (truthy token))
      ∷ ("tokenExpired", bool expired)
      ∷ ("tokenExpiresAt", if truthy token then get "expiresAt" (fields_of token) else str "")
      ∷ ("profileLoaded", bool (truthy token && truthy (get "profileLoaded" (fields_of token))))
      ∷ ("profileSummary", if truthy token then get "profileSummary" (fields_of token) else null)
      ∷ (
        "profileDigest",
        if truthy token then get_or "profileDigest" (str "") (fields_of token) else str "",
      )
      ∷ ("usb", dict usb)
      ∷ [])

  abbrev forget : Json → Action (Json × Bool)
  forget token = do
    remove_token h.dirs
    write_event h.dirs (
        field "event" (str "unlock-token-expired")
          (field "expiresAt" (get_or "expiresAt" (str "") (fields_of token)) end))
    pure (null, true)

  -- `if token and _token_expired(token)`: the token is removed, and forgotten.
  unfoldable pub drop_expired : Json → Action (Json × Bool)
  drop_expired token =
      if truthy token
      then (lift (token_expired (fields_of token)) >>= λ expired.
          if expired then forget token else pure (token, false))
      else pure (token, false)

  -- The medium is looked at as the files then are.
  abbrev pub look_at_usb : String → Action Fields
  look_at_usb root s = (ok (detect_usb h s.world root), s)

  unfoldable pub unlock_status : String → Action Json
  unlock_status usb_root = do
    token ← read_token h.dirs
    lift (has_get token)
    (token', expired) ← drop_expired token
    usb ← look_at_usb usb_root
    pure (unlock_report token' expired usb)

  abbrev pub refused : String → Fields → Json
  refused summary usb = obj (
      ("ok", bool false)
      ∷ ("state", str "blocked")
      ∷ ("summary", str summary)
      ∷ ("usb", dict usb)
      ∷ [])

  -- The token of a profile that was decrypted; `ttl` is TOKEN_TTL_SECONDS, in seconds.
  abbrev pub ttl : ℕ
  ttl = 900

  unfoldable pub new_token : Bool → String → Json → List (String × Json) → Fields
  new_token supplied digest summary extra = fields (
      ("token", str h.fresh_token)
      ∷ ("createdAt", str (utc_now_iso h))
      ∷ ("expiresInSeconds", nat ttl)
      ∷ ("expiresAt", str (h.iso (h.now + ttl * 1000000)))
      ∷ ("passphraseSupplied", bool supplied)
      ∷ ("profileLoaded", bool true)
      ∷ ("profileDigest", str digest)
      ∷ ("profileSummary", summary)
      ∷ extra)

  unfoldable pub lock : Action Json
  lock = do
    removed ← remove_token h.dirs
    write_event h.dirs (field "event" (str "lock") (field "removedToken" (bool removed) end))
    pure (obj (("ok", bool true) ∷ ("state", str "locked") ∷ ("removedToken", bool removed) ∷ []))

  module _ (c : Crypto) where
    -- read_encrypted_profile, on the files as they are
    abbrev pub read_profile : FilePath → String → Action Json
    read_profile path passphrase s = (read_encrypted_profile c s.world path passphrase, s)

    -- What follows once the profile is read.
    unfoldable pub store_token : String → Json → Fields → Action Json
    store_token passphrase profile usb = do
      digest ← lift (profile_digest c profile)
      let summary = profile_summary profile
      let token = new_token (not (passphrase == "")) digest summary []
      write_token h.dirs (dict token)
      write_event h.dirs (
          fields (
            ("event", str "unlock")
            ∷ ("state", str "unlocked")
            ∷ ("usbRoot", get "root" usb)
            ∷ ("profile", summary)
            ∷ ("token", get "token" token)
            ∷ []))
      pure (
          obj (
            ("ok", bool true)
            ∷ ("state", str "unlocked")
            ∷ (
              "summary",
              str "encrypted profile loaded and unlock token created in private runtime state",
            )
            ∷ ("token", dict (without "token" token))
            ∷ ("usb", dict usb)
            ∷ []))

    -- except ProfileCryptoError
    unfoldable pub on_profile : Outcome Json → String → Fields → Action Json
    on_profile (ok profile) passphrase usb = store_token passphrase profile usb
    on_profile (raised (profile_crypto_error m)) passphrase usb = pure (refused m usb)
    on_profile (raised e) passphrase usb = lift (raised e)

    unfoldable pub text_path : Json → FilePath
    text_path (str s) = h.path_of s
    text_path v = h.path_of ""

    unfoldable pub unlock_with : Fields → String → Action Json
    unlock_with usb passphrase =
        if not (truthy (get "trusted" usb))
        then pure (refused "trusted recovery manifest is required before unlock" usb)
        else if not (truthy (get "profilePresent" usb))
        then pure (refused "encrypted profile/profile.json.enc is required before unlock" usb)
        else λ s.
            on_profile
              (read_encrypted_profile c s.world (text_path (get "profilePath" usb)) passphrase)
              passphrase usb s

    unfoldable pub unlock : String → String → Action Json
    unlock usb_root passphrase = do usb ← look_at_usb usb_root; unlock_with usb passphrase

    -- The routes of the HTTP server: the status and the body of each answer.
    -- `do_GET` on a path other than /api/status gives the HTML page, `none` here.
    unfoldable pub do_get : String → String → Action (ℕ × Option Json)
    do_get usb_root path = do
      report ← unlock_status usb_root
      pure (200, (if path == "/api/status" then some report else none))

    -- str(payload.get("passphrase", "")), for a text
    abbrev pub passphrase_of : Fields → String
    passphrase_of payload = elim (get_or "passphrase" (str "") payload) [
      | str s ↦ s
      | v ↦ h.str_of v
    ]

    unfoldable pub do_post : String → String → Fields → Action (ℕ × Json)
    do_post usb_root path payload =
        if path == "/api/unlock"
        then (do answer ← unlock usb_root (passphrase_of payload); pure (200, answer))
        else if path == "/api/lock"
        then (do answer ← lock; pure (200, answer))
        else pure (404, obj (("ok", bool false) ∷ ("error", str "not found") ∷ []))
