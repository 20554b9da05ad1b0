-- ===== src/SessionStore/Keeps.antt =====
-- Invariants of the world, which every action of the agent keeps whether it returns or raises.
use proxy_gateway_console_pu.SessionStore.{
  create_private_dirs, lift, continue, Dirs, Action, pure, Store, ensure, World, ◌>>=◌,
}
use proxy_gateway_console_pu.Prelude.{false, true, if◌then◌else◌, arith, Bool}
use proxy_gateway_console_pu.Outcome.{raised, ok, Outcome}

module _ (P : World → Type 0) where
  pub record Keeps {A : Type 0} (m : Action A) : Type 0 where
    pub at : (s : Store) → P s.world → P (m s).1.world

  pub Keeps-pure : {A : Type 0} (a : A) → Keeps (pure a)
  Keeps-pure a = record { at = λ s p. p }

  pub Keeps-lift : {A : Type 0} (r : Outcome A) → Keeps (lift r)
  Keeps-lift r = record { at = λ s p. p }

  keeps_rest :
      {A B : Type 0} (r : Outcome A) (f : A → Action B) (s : Store)
      → ((a : A) → Keeps (f a))
      → P s.world
      → P (continue r f s).1.world
  keeps_rest (ok a) f s k p = (k a).at s p
  keeps_rest (raised e) f s k p = p

  pub Keeps-bind :
      {A B : Type 0} (m : Action A) (f : A → Action B)
      → Keeps m
      → ((a : A) → Keeps (f a))
      → Keeps (m >>= f)
  Keeps-bind m f km kf = record { at = λ s p. keeps_rest (m s).0 f (m s).1 kf (km.at s p) }

  pub Keeps-if :
      {A : Type 0} (b : Bool) (m n : Action A) → Keeps m → Keeps n → Keeps (if b then m else n)
  Keeps-if true m n km kn = km
  Keeps-if false m n km kn = kn

  -- An action that only looks, or that only sets the directory.
  pub Keeps-look : {A : Type 0} (f : Store → Outcome A) → Keeps (λ s. (f s, s))
  Keeps-look f = record { at = λ s p. p }

  pub Keeps-ensure : (d : Dirs) → Keeps (ensure d)
  unfolding ensure create_private_dirs
  Keeps-ensure d = record { at = λ s p. ground arith }

pub ruleset keeps_rules = (Keeps-pure, Keeps-lift, Keeps-bind, Keeps-if, Keeps-look, Keeps-ensure)
