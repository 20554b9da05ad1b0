-- ===== src/Relay/Quiet.antt =====
-- Actions of a handler in runtime/proxy-stack that make no call of a chosen kind.
use proxy_gateway_console_pu.Prelude.{
  ap, if◌then◌else◌, ◌≡◌, List, [], ◌∷◌, ◌++◌, String, refl, Bool, true, false, ◌∙◌,
}
use proxy_gateway_console_pu.Relay.{
  remote_side, client_side, ◌>>=◌, Io, Conn, Effect, to_client, to_remote, close_remote, perform,
  note, lift, return_io, resume, handled, except, with_remote, tunnel, Round, serve_socket,
  serve_round, Side, Turn, forward, go_on, over, unless_over, until_over,
}
use proxy_gateway_console_pu.Outcome.{Outcome, ok, raised, Exception}
use mathlib.Core.List.{append-nil}

abbrev pub kept : Bool → Effect → List Effect → List Effect
kept true e effects = e ∷ effects
kept false e effects = effects

module _ (loud : Effect → Bool) where
  -- The calls of that kind.
  unfoldable pub loud_of : List Effect → List Effect
  loud_of [] = []
  loud_of (e ∷ effects) = kept (loud e) e (loud_of effects)

  kept_append :
      (b : Bool) (e : Effect) (xs ys : List Effect) → kept b e (xs ++ ys) ≡ kept b e xs ++ ys
  kept_append true e xs ys = refl
  kept_append false e xs ys = refl

  pub loud_of-snoc :
      (effects : List Effect) (e : Effect)
      → loud_of (effects ++ e ∷ []) ≡ loud_of effects ++ kept (loud e) e []
  unfolding loud_of
  loud_of-snoc [] e = refl
  loud_of-snoc (x ∷ xs) e =
      ap (λ l. kept (loud x) x l) (loud_of-snoc xs e)
      ∙ kept_append (loud x) x (loud_of xs) (kept (loud e) e [])

  abbrev pub IsSilent : Effect → Type 0
  IsSilent e = loud e ≡ false

  pub silent_lem :
      (effects : List Effect) (e : Effect)
      → IsSilent e
      → loud_of (effects ++ e ∷ []) ≡ loud_of effects
  unfolding loud_of
  silent_lem effects e silent = loud_of-snoc effects e ∙ (rw silent (append-nil (loud_of effects)))

  module _ (client-IsSilent : (t : String) → IsSilent (to_client t))
      (remote-IsSilent : (t : String) → IsSilent (to_remote t)) where
    forward-IsSilent : (side : Side) (chunk : String) → IsSilent (forward (side, chunk))
    forward-IsSilent client_side chunk = remote-IsSilent chunk
    forward-IsSilent remote_side chunk = client-IsSilent chunk

  module _ {M : Type 0} where
    -- An action that makes no such call and leaves the memory.
    pub record IsQuiet {A : Type 0} (m : Io M A) : Type 0 where
      pub at :
          (s : Conn M) → (loud_of (m s).1.trace ≡ loud_of s.trace) × ((m s).1.memory ≡ s.memory)

    abbrev Same : Conn M → Conn M → Type 0
    Same s t = (loud_of t.trace ≡ loud_of s.trace) × (t.memory ≡ s.memory)

    onward : (s t u : Conn M) → Same s t → Same t u → Same s u
    onward s t u (a, b) (c, d) = (c ∙ a, d ∙ b)

    pub IsQuiet-return : {A : Type 0} (a : A) → IsQuiet (return_io a)
    IsQuiet-return a = record { at = λ s. (refl, refl) }

    pub IsQuiet-lift : {A : Type 0} (r : Outcome A) → IsQuiet (lift r)
    IsQuiet-lift r = record { at = λ s. (refl, refl) }

    pub IsQuiet-note : (e : Effect) → IsSilent e → IsQuiet (note e)
    IsQuiet-note e silent = record { at = λ s. (silent_lem s.trace e silent, refl) }

    pub IsQuiet-perform :
        (answer : List Effect → Effect → Outcome (Unit {0})) (e : Effect)
        → IsSilent e
        → IsQuiet (perform answer e)
    unfolding perform
    IsQuiet-perform answer e silent = record { at = λ s. (silent_lem s.trace e silent, refl) }

    rest-Same :
        {A B : Type 0} (r : Outcome A) (f : A → Io M B) (s : Conn M)
        → ((a : A) → IsQuiet (f a))
        → Same s (resume r f s).1
    rest-Same (ok a) f s q = (q a).at s
    rest-Same (raised e) f s q = (refl, refl)

    pub IsQuiet-bind :
        {A B : Type 0} (m : Io M A) (f : A → Io M B)
        → IsQuiet m
        → ((a : A) → IsQuiet (f a))
        → IsQuiet (m >>= f)
    IsQuiet-bind m f qm qf = record {
      at = λ s. onward s (m s).1 _ (qm.at s) (rest-Same (m s).0 f (m s).1 qf);
    }

    pub IsQuiet-if :
        {A : Type 0} (b : Bool) (m n : Io M A)
        → IsQuiet m
        → IsQuiet n
        → IsQuiet (if b then m else n)
    IsQuiet-if true m n qm qn = qm
    IsQuiet-if false m n qm qn = qn

    pub handled-Same :
        {A : Type 0} (r : Outcome A) (handler : Exception → Io M A) (s : Conn M)
        → ((e : Exception) → IsQuiet (handler e))
        → Same s (handled r handler s).1
    handled-Same (ok a) handler s q = (refl, refl)
    handled-Same (raised e) handler s q = (q e).at s

    pub IsQuiet-except :
        {A : Type 0} (m : Io M A) (handler : Exception → Io M A)
        → IsQuiet m
        → ((e : Exception) → IsQuiet (handler e))
        → IsQuiet (except m handler)
    unfolding except
    IsQuiet-except m handler qm qh = record {
      at = λ s. onward s (m s).1 _ (qm.at s) (handled-Same (m s).0 handler (m s).1 qh);
    }

    pub IsQuiet-with_remote :
        {A : Type 0} (m : Io M A) → IsSilent close_remote → IsQuiet m → IsQuiet (with_remote m)
    unfolding with_remote
    IsQuiet-with_remote m silent qm = record {
      at = λ s. onward s (m s).1 _ (qm.at s) (silent_lem (m s).1.trace close_remote silent, refl);
    }

    pub ruleset quiet_rules = (
      IsQuiet-return, IsQuiet-lift, IsQuiet-note, IsQuiet-perform, IsQuiet-bind, IsQuiet-if,
      IsQuiet-except, IsQuiet-with_remote,
    )

    module _ (answer : List Effect → Effect → Outcome (Unit {0}))
        (client-IsSilent : (t : String) → IsSilent (to_client t))
        (remote-IsSilent : (t : String) → IsSilent (to_remote t)) where
      IsQuiet-serve_socket : (event : Side × Outcome String) → IsQuiet (serve_socket answer event)
      unfolding serve_socket
      IsQuiet-serve_socket (side, raised e) = search quiet_rules
      IsQuiet-serve_socket (side, ok chunk) =
          let silent = forward-IsSilent client-IsSilent remote-IsSilent side chunk in
          search quiet_rules

      IsQuiet-unless_over : (m : Io M Turn) (turn : Turn) → IsQuiet m → IsQuiet (unless_over m turn)
      IsQuiet-unless_over m over q = IsQuiet-return over
      IsQuiet-unless_over m go_on q = q

      IsQuiet-until_over :
          (m : Io M (Unit {0})) (turn : Turn) → IsQuiet m → IsQuiet (until_over m turn)
      IsQuiet-until_over m over q = IsQuiet-return tt
      IsQuiet-until_over m go_on q = q

      IsQuiet-serve_round :
          (events : List (Side × Outcome String)) → IsQuiet (serve_round answer events)
      unfolding serve_round
      IsQuiet-serve_round [] = IsQuiet-return go_on
      IsQuiet-serve_round (event ∷ events) =
          IsQuiet-bind _ _ (IsQuiet-serve_socket event)
            (λ turn. IsQuiet-unless_over _ turn (IsQuiet-serve_round events))

      pub IsQuiet-tunnel : (rounds : List Round) → IsQuiet (tunnel answer rounds)
      unfolding tunnel
      IsQuiet-tunnel [] = IsQuiet-return tt
      IsQuiet-tunnel (round ∷ rounds) = IsQuiet-if _ _ _ (IsQuiet-return tt) (
          IsQuiet-bind _ _ (IsQuiet-serve_round round.readable)
            (λ turn. IsQuiet-until_over _ turn (IsQuiet-tunnel rounds)))
