-- ===== src/UnlockServer/Expiry.antt =====
-- How long an unlock token of agent/unlock_server.py lives.
use proxy_gateway_console_pu.Json.{
  null, list, float, int, str, truthy, dict, bool, dict_or_empty, get, Fields, Json,
}
use proxy_gateway_console_pu.Prelude.{
  if◌then◌else◌, sym, ap, ◌∙◌, Option, inr, inl, Bool-cases, none, eq_iff, arith, ◌==◌, some, ◌≢◌,
  ◌≡◌, refl, true, false, Bool, leb, ◌+◌, ◌*◌, String, List,
}
use proxy_gateway_console_pu.Outcome.{ok, Outcome, type_error, raised}
use proxy_gateway_console_pu.Host.{IsoTime, naive, aware, Host}
use proxy_gateway_console_pu.SessionStore.{
  set_file, json, token_path, append_line, write_event, unlink, Store, remove_token, read_json,
  World, read_token,
}
use proxy_gateway_console_pu.GatewayAgent.Stop.{ensure_default, store_of}
use proxy_gateway_console_pu.SessionStore.Returns.{Returns}
use proxy_gateway_console_pu.UnlockServer.{
  new_token, token_expired, expired_at, unlock_status, unlock_report, drop_expired,
}

-- A new token, looked at on any later or earlier clock that reads the time as the first one wrote it, has
-- expired exactly if 900 seconds have gone by.
pub token_expired-new_token :
    (h h' : Host) (supplied : Bool) (digest : String) (summary : Json)
    (extra : List (String × Json))
    → h.iso (h.now + 900 * 1000000) ≢ ""
    → h'.from_iso (h.iso (h.now + 900 * 1000000)) ≡ some (aware (h.now + 900 * 1000000))
    → token_expired h' (new_token h supplied digest summary extra)
      ≡ ok (leb (h.now + 900 * 1000000) h'.now)
unfolding token_expired expired_at new_token
token_expired-new_token h h' supplied digest summary extra written read =
    let e : (h.iso (h.now + 900 * 1000000) == "") ≡ false =
      ground (arith, eq_iff (h.iso (h.now + 900 * 1000000)) "") in
    rw e (rw read refl)

-- What `unlock_status` makes of a token that is there: it keeps it as it is, or removes it.
abbrev pub Reported : Host → World → Bool → Json → Store → Type 0
Reported h w false report u =
    (u ≡ store_of h w) × (get "tokenPresent" (dict_or_empty report) ≡ bool true)
Reported h w true report u =
    (u.files (token_path u) ≡ none)
    × (get "tokenPresent" (dict_or_empty report) ≡ bool false)
    × (get "tokenExpired" (dict_or_empty report) ≡ bool true)

-- The time of a token, as `fromisoformat` reads it; none where there is no text or none that it reads.
abbrev pub time_of : Host → Json → Option IsoTime
time_of h (str s) = if s == "" then none else h.from_iso s
time_of h v = none

-- A token with a time after now is live, and one without a time or with one that is past is not.
abbrev pub is_over : Host → Option IsoTime → Bool
is_over h (some (aware t)) = leb t h.now
is_over h o = true

-- The answer on a token by its time.
abbrev pub Answered : Host → World → String → Option IsoTime → Type 0
Answered h w usb_root (some naive) =
    unlock_status h usb_root (store_of h w) ≡ (raised type_error, store_of h w)
Answered h w usb_root o =
    Returns (unlock_status h usb_root) (store_of h w) (Reported h w (is_over h o))

expired_at-time_of :
    (h : Host) (v : Json) (o : Option IsoTime)
    → time_of h v ≡ o
    → expired_at h v ≡ (elim o as (λ x. Outcome Bool) [
      | some naive ↦ raised type_error
      | some (aware t) ↦ ok (is_over h (some (aware t)))
      | none ↦ ok true
    ])
unfolding expired_at
expired_at-time_of h (str s) o e = elim (Bool-cases (s == "")) [
  | inl empty ↦ rw empty (rw (sym (rw empty at e)) refl)
  | inr full ↦ rw full (rw (rw full at e) refl)
]
expired_at-time_of h null o e = rw (sym e) refl
expired_at-time_of h (bool b) o e = rw (sym e) refl
expired_at-time_of h (int z) o e = rw (sym e) refl
expired_at-time_of h (float z n) o e = rw (sym e) refl
expired_at-time_of h (list xs) o e = rw (sym e) refl
expired_at-time_of h (dict fs) o e = rw (sym e) refl

module _ (h : Host) (usable : h.dirs.is_usable h.dirs.default_dir ≡ true) where
  module _ (usb_root : String) (w : World) (token : Fields)
      (there : w.files (token_path (store_of h w)) ≡ some (json (dict token)))
      (t : truthy (dict token) ≡ true) where
    kept :
        token_expired h token ≡ ok false
        → Returns (unlock_status h usb_root) (store_of h w) (Reported h w false)
    unfolding unlock_status drop_expired read_token read_json unlock_report
    kept young = rw (ensure_default h usable w) (rw there (rw t (rw young (refl, rw t refl))))

    removed :
        token_expired h token ≡ ok true
        → Returns (unlock_status h usb_root) (store_of h w) (Reported h w true)
    unfolding unlock_status drop_expired read_token read_json remove_token unlink write_event
        append_line unlock_report set_file
    removed old =
        let d : (h.dirs.default_dir == h.dirs.default_dir) ≡ true =
          (eq_iff h.dirs.default_dir h.dirs.default_dir).1 refl in
        let w' : World = set_file (token_path (store_of h w)) none w in
        rw (ensure_default h usable w) (
          rw there (
            rw t (
              rw old (
                rw (ensure_default h usable w)
                  (rw (ensure_default h usable w') (rw d refl, refl, refl))))))

    broken :
        token_expired h token ≡ raised type_error
        → unlock_status h usb_root (store_of h w) ≡ (raised type_error, store_of h w)
    unfolding unlock_status drop_expired read_token read_json
    broken e = rw (ensure_default h usable w) (rw there (rw t (rw e refl)))

    by_time : (o : Option IsoTime) → time_of h (get "expiresAt" token) ≡ o → Answered h w usb_root o
    unfolding token_expired
    by_time none e = removed (expired_at-time_of h (get "expiresAt" token) none e)
    by_time (some naive) e = broken (expired_at-time_of h (get "expiresAt" token) (some naive) e)
    by_time (some (aware at)) e = elim (Bool-cases (leb at h.now)) [
      | inl over ↦
          rw over (
            removed (expired_at-time_of h (get "expiresAt" token) (some (aware at)) e ∙ ap ok over))
      | inr live ↦
          rw live
            (kept (expired_at-time_of h (get "expiresAt" token) (some (aware at)) e ∙ ap ok live))
    ]

    -- Where the runtime directory is usable and holds a token that counts as true: `unlock_status` returns
    -- and keeps a token whose time is after now, reported as present; it returns and removes one without a
    -- time or with a time that is past, reported as absent and expired; and for a time without an offset it
    -- raises `TypeError` and touches nothing.
    pub unlock_status-Reported : Answered h w usb_root (time_of h (get "expiresAt" token))
    unlock_status-Reported = by_time (time_of h (get "expiresAt" token)) refl
