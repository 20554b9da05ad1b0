-- ===== src/Outcome.antt =====
-- What a Python function of the agent does: it returns, or it raises an exception.
use proxy_gateway_console_pu.Prelude.{
  inr, inl, ◌⊎◌, ℤ, Option, String, ◌≡◌, refl, Bool, true, false,
}

-- The exceptions that the modelled code raises or lets through. `ProfileValidationError` and
-- `ProfileCryptoError` are subclasses of `ValueError`.
pub data Exception : Type 0 where
  profile_validation_error profile_crypto_error value_error runtime_error : String → Exception
  -- the name of the class, which is `OSError` or below it, the errno, and the message
  os_error : String → Option ℤ → String → Exception
  type_error attribute_error key_error invalid_tag : Exception

pub data Outcome {ℓ} (A : Type ℓ) : Type ℓ where
  ok : A → Outcome A
  raised : Exception → Outcome A

infixl 5 ◌>>=◌
infixr 5 ◌>>◌
abbrev pub ◌>>=◌ {ℓ κ} : {A : Type ℓ} {B : Type κ} → Outcome A → (A → Outcome B) → Outcome B
ok a >>= f = f a
raised e >>= f = raised e

abbrev pub ◌>>◌ {ℓ} : {B : Type ℓ} → Outcome (Unit {0}) → Outcome B → Outcome B
m >> k = m >>= λ _. k

-- `if b: raise e`
abbrev pub raise_if : Bool → Exception → Outcome (Unit {0})
raise_if true e = raised e
raise_if false e = ok tt

-- Where a chain returns, its first part did, and so did the rest of it on that value.
pub >>=-eq-ok {ℓ κ} :
    {X : Type ℓ} {Y : Type κ} (first : Outcome X) (next : X → Outcome Y) {y : Y}
    → (first >>= next) ≡ ok y
    → (x : X) × (first ≡ ok x) × (next x ≡ ok y)
>>=-eq-ok (raised e) next returned = cc
>>=-eq-ok (ok x) next returned = (x, refl, returned)

-- A block of checks passes exactly if each of them does.
pub >>-eq-ok : (m k : Outcome (Unit {0})) → (m >> k) ≡ ok tt → (m ≡ ok tt) × (k ≡ ok tt)
>>-eq-ok (ok tt) k h = (refl, h)
>>-eq-ok (raised e) k h = cc

pub raise_if-eq-ok : (b : Bool) (e : Exception) → raise_if b e ≡ ok tt → b ≡ false
raise_if-eq-ok true e h = cc
raise_if-eq-ok false e h = refl

-- To split on what a computed action does.
pub Outcome-cases {ℓ} :
    {A : Type ℓ} (m : Outcome A) → ((a : A) × (m ≡ ok a)) ⊎ ((e : Exception) × (m ≡ raised e))
Outcome-cases (ok a) = inl (a, refl)
Outcome-cases (raised e) = inr (e, refl)
