-- ===== src/ProfileSchema/Secrets.antt =====
-- `_reject_inline_secrets` of agent/profile_schema.py, and the entries of a value at any depth.
use proxy_gateway_console_pu.Prelude.{
  ℕ, ◌+◌, String, ◌<>◌, ◌≡◌, ◌↔◌, refl, Bool, true, false, ◌&&◌, List, [], ◌∷◌, arith, ◌==◌, lower,
  any, show_ℕ,
}
use proxy_gateway_console_pu.Json.{Json, list, dict, Items, nil, cons, Fields, end, field, truthy}
use proxy_gateway_console_pu.Outcome.{
  profile_validation_error, Outcome, ok, ◌>>◌, raise_if, >>-eq-ok,
}

-- SECRET_KEYS
abbrev pub secret_keys : List String
secret_keys = "password" ∷ "passwd" ∷ "secret" ∷ "token" ∷ "auth" ∷ "credential" ∷ []

-- key.lower() in SECRET_KEYS
unfoldable pub is_secret_key : String → Bool
is_secret_key key = any (λ s. s == lower key) secret_keys

unfoldable mutual
  pub reject_inline_secrets : Json → String → Outcome (Unit {0})
  reject_inline_secrets (dict fs) path = reject_fields fs path
  reject_inline_secrets (list xs) path = reject_items xs 0 path
  reject_inline_secrets _ path = ok tt

  pub reject_fields : Fields → String → Outcome (Unit {0})
  reject_fields end path = ok tt
  reject_fields (field key child fs) path =
      raise_if (is_secret_key key && truthy child)
        (profile_validation_error ("inline secret field is not allowed: " <> path <> key))
      >> reject_inline_secrets child (path <> key <> ".")
      >> reject_fields fs path

  pub reject_items : Items → ℕ → String → Outcome (Unit {0})
  reject_items nil index path = ok tt
  reject_items (cons child xs) index path =
      reject_inline_secrets child (path <> show_ℕ index <> ".") >> reject_items xs (index + 1) path

-- `EntryOf k v j`: the entry k: v stands in a dict of j, at some depth.
mutual
  pub data EntryOf (k : String) (v : Json) : Json → Type 0 where
    in_dict : {fs : Fields} → EntryOfFields k v fs → EntryOf k v (dict fs)
    in_list : {xs : Items} → EntryOfItems k v xs → EntryOf k v (list xs)

  pub data EntryOfFields (k : String) (v : Json) : Fields → Type 0 where
    here : {fs : Fields} → EntryOfFields k v (field k v fs)
    below : {j : String} {w : Json} {fs : Fields} → EntryOf k v w → EntryOfFields k v (field j w fs)
    later :
        {j : String} {w : Json} {fs : Fields}
        → EntryOfFields k v fs
        → EntryOfFields k v (field j w fs)

  pub data EntryOfItems (k : String) (v : Json) : Items → Type 0 where
    element : {w : Json} {xs : Items} → EntryOf k v w → EntryOfItems k v (cons w xs)
    rest : {w : Json} {xs : Items} → EntryOfItems k v xs → EntryOfItems k v (cons w xs)

-- No entry with a secret key has a value that counts as true.
abbrev pub HasNoSecret : Json → Type 0
HasNoSecret j = (k : String) (v : Json) → EntryOf k v j → is_secret_key k ≡ true → truthy v ≡ false

mutual
  unfolding reject_inline_secrets

  reject_sound :
      {k : String} {v : Json} {j : Json} (path : String)
      → EntryOf k v j
      → reject_inline_secrets j path ≡ ok tt
      → is_secret_key k ≡ true
      → truthy v ≡ false
  reject_sound path (in_dict e) h s = reject_fields_sound path e h s
  reject_sound path (in_list e) h s = reject_items_sound 0 path e h s

  reject_fields_sound :
      {k : String} {v : Json} {fs : Fields} (path : String)
      → EntryOfFields k v fs
      → reject_fields fs path ≡ ok tt
      → is_secret_key k ≡ true
      → truthy v ≡ false
  reject_fields_sound {k} {v} path here h s = ground arith
  reject_fields_sound path (below {j} {w} {fs} e) h s =
      reject_sound (path <> j <> ".") e (>>-eq-ok _ _ (>>-eq-ok _ _ h).1).0 s
  reject_fields_sound path (later {j} {w} {fs} e) h s =
      reject_fields_sound path e (>>-eq-ok _ _ (>>-eq-ok _ _ h).1).1 s

  reject_items_sound :
      {k : String} {v : Json} {xs : Items} (index : ℕ) (path : String)
      → EntryOfItems k v xs
      → reject_items xs index path ≡ ok tt
      → is_secret_key k ≡ true
      → truthy v ≡ false
  reject_items_sound index path (element {w} {xs} e) h s =
      reject_sound (path <> show_ℕ index <> ".") e (>>-eq-ok _ _ h).0 s
  reject_items_sound index path (rest {w} {xs} e) h s =
      reject_items_sound (index + 1) path e (>>-eq-ok _ _ h).1 s

allowed :
    (k : String) (v : Json)
    → (is_secret_key k ≡ true → truthy v ≡ false)
    → (is_secret_key k && truthy v) ≡ false
allowed k v h = ground arith

pass :
    (b : Bool) (x : String) (m n : Outcome (Unit {0}))
    → b ≡ false
    → m ≡ ok tt
    → n ≡ ok tt
    → (raise_if b (profile_validation_error x) >> m >> n) ≡ ok tt
pass b x m n p q r = rw p (rw q r)

mutual
  unfolding reject_inline_secrets

  reject_complete :
      (j : Json) (path : String)
      → ((k : String) (v : Json) → EntryOf k v j → is_secret_key k ≡ true → truthy v ≡ false)
      → reject_inline_secrets j path ≡ ok tt
  reject_complete (dict fs) path h = reject_fields_complete fs path (λ k v e. h k v (in_dict e))
  reject_complete (list xs) path h = reject_items_complete xs 0 path (λ k v e. h k v (in_list e))
  reject_complete _ path h = refl

  reject_fields_complete :
      (fs : Fields) (path : String)
      → ((k : String) (v : Json) → EntryOfFields k v fs → is_secret_key k ≡ true → truthy v ≡ false)
      → reject_fields fs path ≡ ok tt
  reject_fields_complete end path h = refl
  reject_fields_complete (field key child fs) path h =
      pass (is_secret_key key && truthy child) _ _ _ (allowed key child (h key child here))
        (reject_complete child (path <> key <> ".") (λ k v e. h k v (below e)))
        (reject_fields_complete fs path (λ k v e. h k v (later e)))

  reject_items_complete :
      (xs : Items) (index : ℕ) (path : String)
      → ((k : String) (v : Json) → EntryOfItems k v xs → is_secret_key k ≡ true → truthy v ≡ false)
      → reject_items xs index path ≡ ok tt
  reject_items_complete nil index path h = refl
  reject_items_complete (cons child xs) index path h =
      rw (reject_complete child (path <> show_ℕ index <> ".") (λ k v e. h k v (element e)))
        (reject_items_complete xs (index + 1) path (λ k v e. h k v (rest e)))

-- The check passes exactly the values in which no entry with a secret key, at any depth, has a
-- value that counts as true, whatever path it starts from.
pub reject_inline_secrets_iff :
    (j : Json) (path : String) → (reject_inline_secrets j path ≡ ok tt) ↔ HasNoSecret j
reject_inline_secrets_iff j path =
    (λ h k v e s. reject_sound path e h s, λ h. reject_complete j path h)
