-- ===== src/UsbIdentity/Trust.antt =====
-- When a recovery medium counts as trusted.
use proxy_gateway_console_pu.Prelude.{
  sym, subst, ◌||◌, inr, inl, Bool-cases, eq_iff, refl, arith, ◌↔◌, List, not, [], Bool, false, ◌⊎◌,
  ◌≤◌, String, true, ◌≡◌,
}
use proxy_gateway_console_pu.UsbIdentity.{marker_of, note, marker_short, validate_usb_manifest}
use proxy_gateway_console_pu.Json.{dict, null, eq_str, Json, has, truthy, eq_ℕ, str, get, Fields}
use Prim.Native.String.{count}

pub record IsTrusted (manifest : Fields) : Type 0 where
  pub product : get "product" manifest ≡ str "PROXY_GATEWAY"
  pub version : eq_ℕ 2 (get "version" manifest) ≡ true
  pub marker :
      (m : String) × (12 ≤ count m)
      × ((get "marker" manifest ≡ str m)
          ⊎ ((truthy (get "marker" manifest) ≡ false) × (get "trustId" manifest ≡ str m)))
  pub no_secret :
      (has "secret" manifest ≡ false)
      × (has "password" manifest ≡ false)
      × (has "token" manifest ≡ false)

note_none : (b : Bool) (m : String) (xs : List String) → note b m xs ≡ [] → (b ≡ false) × (xs ≡ [])
note_none true m xs h = cc
note_none false m xs h = (refl, h)

text_of_eq : (s : String) (v : Json) → not (eq_str s v) ≡ false → v ≡ str s
text_of_eq s (str t) h = ground (arith, eq_iff t s)
text_of_eq s null h = cc
text_of_eq s v h = cc

long_text : (v : Json) → marker_short v ≡ false → (m : String) × (12 ≤ count m) × (v ≡ str m)
long_text (str m) h = (m, ground arith, refl)
long_text null h = cc
long_text v h = cc

not-false : (b : Bool) → not b ≡ false → b ≡ true
not-false b h = ground arith

marker_long :
    (gs : Fields) (m : String)
    → 12 ≤ count m
    → (get "marker" gs ≡ str m) ⊎ ((truthy (get "marker" gs) ≡ false) × (get "trustId" gs ≡ str m))
    → marker_short (marker_of gs) ≡ false
marker_long gs m long (inl e) = elim (Bool-cases (truthy (get "marker" gs))) [
  | inl t ↦ rw (t, e) (ground arith)
  | inr f ↦ absurd (empty_short m long (rw e at f))
]
  where
    empty_short : (t : String) → 12 ≤ count t → truthy (str t) ≡ false → ⊥
    empty_short t l f =
        let e : t ≡ "" = ground (arith, eq_iff t "") in
        absurd (omega (arith, subst (λ x. 12 ≤ count x) e l))
marker_long gs m long (inr (f, e)) = rw (f, e) (ground arith)

trusted_passes : (gs : Fields) → IsTrusted gs → validate_usb_manifest (dict gs) ≡ []
unfolding validate_usb_manifest
trusted_passes gs t =
    let (m, long, at) = t.marker in
    let (s, p, k) = t.no_secret in
    rw t.product (rw t.version (rw (marker_long gs m long at) (ground (arith, s, p, k))))

-- The manifest is accepted without an error exactly if it is a dict that names the product, has
-- version 2, has a marker of at least 12 characters (in the old field only where the new one is empty)
-- and has none of the three secret fields.
pub validate_usb_manifest_iff :
    (v : Json)
    → (validate_usb_manifest v ≡ [])
      ↔ ((manifest : Fields) × (v ≡ dict manifest) × IsTrusted manifest)
unfolding validate_usb_manifest
validate_usb_manifest_iff (dict manifest) = (λ h. (manifest, refl, sound h), complete)
  where
    marker_at :
        (m : String)
        → marker_of manifest ≡ str m
        → (get "marker" manifest ≡ str m)
          ⊎ ((truthy (get "marker" manifest) ≡ false) × (get "trustId" manifest ≡ str m))
    marker_at m e = elim (Bool-cases (truthy (get "marker" manifest))) [
      | inl t ↦ inl (rw t at e)
      | inr f ↦ inr (f, rw f at e)
    ]

    sound : validate_usb_manifest (dict manifest) ≡ [] → IsTrusted manifest
    sound h =
        let (p, a) = note_none _ _ _ h in
        let (v, b) = note_none (not (eq_ℕ 2 (get "version" manifest))) _ _ a in
        let (k, c) = note_none (marker_short (marker_of manifest)) _ _ b in
        let (s, d) =
          note_none (has "secret" manifest || has "password" manifest || has "token" manifest) _ []
            c in
        let (m, long, is) = long_text _ k in
        record {
          product = text_of_eq _ _ p;
          version = not-false _ v;
          marker = (m, long, marker_at m is);
          no_secret = ground arith;
        }

    complete :
        (gs : Fields) × (dict manifest ≡ dict gs) × IsTrusted gs
        → validate_usb_manifest (dict manifest) ≡ []
    complete (gs, e, t) = subst (λ v. validate_usb_manifest v ≡ []) (sym e) (trusted_passes gs t)
validate_usb_manifest_iff null = (λ h. cc, λ p. ground arith)
validate_usb_manifest_iff v = (λ h. cc, λ p. ground arith)
