-- ===== src/SessionStore/Returns.antt =====
-- Total correctness of actions: the action returns, and what it returns and leaves is as it should be.
use proxy_gateway_console_pu.Outcome.{Outcome, ok, raised}
use proxy_gateway_console_pu.SessionStore.{Store, Action, ◌>>=◌, continue}

abbrev pub Satisfied : {A : Type 0} → Outcome A → Store → (A → Store → Type 0) → Type 0
Satisfied (ok a) t Q = Q a t
Satisfied (raised e) t Q = ⊥

-- From s, m returns some a and leaves some t with Q a t.
abbrev pub Returns : {A : Type 0} → Action A → Store → (A → Store → Type 0) → Type 0
Returns m s Q = Satisfied (m s).0 (m s).1 Q

continue-Satisfied :
    {A B : Type 0} (r : Outcome A) (t : Store) (f : A → Action B) (P : A → Store → Type 0)
    (Q : B → Store → Type 0)
    → Satisfied r t P
    → ((a : A) (u : Store) → P a u → Returns (f a) u Q)
    → Satisfied (continue r f t).0 (continue r f t).1 Q
continue-Satisfied (ok a) t f P Q p q = q a t p
continue-Satisfied (raised e) t f P Q p q = absurd p

pub Returns-bind :
    {A B : Type 0} (m : Action A) (f : A → Action B) (s : Store) (P : A → Store → Type 0)
    (Q : B → Store → Type 0)
    → Returns m s P
    → ((a : A) (u : Store) → P a u → Returns (f a) u Q)
    → Returns (m >>= f) s Q
Returns-bind m f s P Q p q = continue-Satisfied (m s).0 (m s).1 f P Q p q

weaken :
    {A : Type 0} (r : Outcome A) (t : Store) (P Q : A → Store → Type 0)
    → Satisfied r t P
    → ((a : A) (u : Store) → P a u → Q a u)
    → Satisfied r t Q
weaken (ok a) t P Q p q = q a t p
weaken (raised e) t P Q p q = absurd p

pub Returns-weaken :
    {A : Type 0} (m : Action A) (s : Store) (P Q : A → Store → Type 0)
    → Returns m s P
    → ((a : A) (u : Store) → P a u → Q a u)
    → Returns m s Q
Returns-weaken m s P Q p q = weaken (m s).0 (m s).1 P Q p q
