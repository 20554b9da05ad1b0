-- ===== src/Relay/Keeps.antt =====
-- What the handlers in runtime/proxy-stack keep true of the calls they make.
use proxy_gateway_console_pu.Prelude.{
  List, [], ◌∷◌, ◌++◌, String, Bool, true, false, subst, sym, map, if◌then◌else◌,
}
use proxy_gateway_console_pu.Outcome.{Outcome, ok, raised, Exception}
use proxy_gateway_console_pu.Relay.{
  ◌>>=◌, Io, Conn, Effect, to_client, to_remote, close_remote, perform, note, lift, return_io,
  resume, handled, except, with_remote, tunnel, Round, Side, client_side, remote_side,
}
use proxy_gateway_console_pu.Relay.Order.{tunnel-Passed}
use proxy_gateway_console_pu.Relay.Passed.{across}
use mathlib.Core.List.{append_assoc, append-nil}

module _ (P : List Effect → Type 0) where
  -- A call that P may be extended by.
  abbrev pub Adds : Effect → Type 0
  Adds e = (effects : List Effect) → P effects → P (effects ++ e ∷ [])

  module _ (to_clients : (t : String) → Adds (to_client t))
      (to_remotes : (t : String) → Adds (to_remote t)) where
    adds_all :
        (done : List (Side × String)) (effects : List Effect)
        → P effects
        → P (effects ++ map across done)
    unfolding across
    adds_all [] effects p = subst P (sym (append-nil effects)) p
    adds_all ((client_side, chunk) ∷ done) effects p =
        subst P (append_assoc effects (to_remote chunk ∷ []) (map across done))
          (adds_all done _ (to_remotes chunk effects p))
    adds_all ((remote_side, chunk) ∷ done) effects p =
        subst P (append_assoc effects (to_client chunk ∷ []) (map across done))
          (adds_all done _ (to_clients chunk effects p))

  module _ {M : Type 0} where
    pub record Keeps {A : Type 0} (m : Io M A) : Type 0 where
      pub at : (s : Conn M) → P s.trace → P (m s).1.trace

    pub Keeps-return : {A : Type 0} (a : A) → Keeps (return_io a)
    Keeps-return a = record { at = λ s p. p }

    pub Keeps-lift : {A : Type 0} (r : Outcome A) → Keeps (lift r)
    Keeps-lift r = record { at = λ s p. p }

    pub Keeps-note : (e : Effect) → Adds e → Keeps (note e)
    Keeps-note e adds = record { at = λ s p. adds s.trace p }

    pub Keeps-perform :
        (answer : List Effect → Effect → Outcome (Unit {0})) (e : Effect)
        → Adds e
        → Keeps (perform answer e)
    unfolding perform
    Keeps-perform answer e adds = record { at = λ s p. adds s.trace p }

    rest_keeps :
        {A B : Type 0} (r : Outcome A) (f : A → Io M B) (s : Conn M)
        → ((a : A) → Keeps (f a))
        → P s.trace
        → P (resume r f s).1.trace
    rest_keeps (ok a) f s k p = (k a).at s p
    rest_keeps (raised e) f s k p = p

    pub Keeps-bind :
        {A B : Type 0} (m : Io M A) (f : A → Io M B)
        → Keeps m
        → ((a : A) → Keeps (f a))
        → Keeps (m >>= f)
    Keeps-bind m f km kf = record { at = λ s p. rest_keeps (m s).0 f (m s).1 kf (km.at s p) }

    pub Keeps-if :
        {A : Type 0} (b : Bool) (m n : Io M A) → Keeps m → Keeps n → Keeps (if b then m else n)
    Keeps-if true m n km kn = km
    Keeps-if false m n km kn = kn

    handled_keeps :
        {A : Type 0} (r : Outcome A) (handler : Exception → Io M A) (s : Conn M)
        → ((e : Exception) → Keeps (handler e))
        → P s.trace
        → P (handled r handler s).1.trace
    handled_keeps (ok a) handler s k p = p
    handled_keeps (raised e) handler s k p = (k e).at s p

    pub Keeps-except :
        {A : Type 0} (m : Io M A) (handler : Exception → Io M A)
        → Keeps m
        → ((e : Exception) → Keeps (handler e))
        → Keeps (except m handler)
    unfolding except
    Keeps-except m handler km kh = record {
      at = λ s p. handled_keeps (m s).0 handler (m s).1 kh (km.at s p);
    }

    pub Keeps-with_remote :
        {A : Type 0} (m : Io M A) → Adds close_remote → Keeps m → Keeps (with_remote m)
    unfolding with_remote
    Keeps-with_remote m adds km = record { at = λ s p. adds (m s).1.trace (km.at s p) }

    pub ruleset keeps_calls = (
      Keeps-return, Keeps-lift, Keeps-note, Keeps-perform, Keeps-bind, Keeps-if, Keeps-except,
      Keeps-with_remote,
    )

    module _ (to_clients : (t : String) → Adds (to_client t))
        (to_remotes : (t : String) → Adds (to_remote t)) where
      pub Keeps-tunnel :
          (answer : List Effect → Effect → Outcome (Unit {0})) (rounds : List Round)
          → Keeps (tunnel answer rounds)
      Keeps-tunnel answer rounds = record {
        at = λ s p.
            let (passed, why) = tunnel-Passed answer rounds s in
            subst P (sym passed.nothing_else)
              (adds_all to_clients to_remotes passed.done s.trace p);
      }
