-- ===== src/SplitProxy/Handler/Once.antt =====
-- Actions of `SplitHttpProxy` that open at most one connection.
use proxy_gateway_console_pu.Prelude.{
  eq_iff, if◌then◌else◌, ◌≡◌, List, [], ◌∷◌, ◌++◌, String, refl, Bool, true, false, ◌==◌, ◌∙◌, ◌⊎◌,
  inl, inr, ℤ,
}
use proxy_gateway_console_pu.Relay.Quiet.{
  handled-Same, IsQuiet-lift, IsSilent, IsQuiet-tunnel, quiet_rules, loud_of, IsQuiet, loud_of-snoc,
}
use proxy_gateway_console_pu.SplitProxy.Handler.{answered, pass_on, World}
use proxy_gateway_console_pu.SplitProxy.Cache.{Entries}
use proxy_gateway_console_pu.Outcome.{Outcome, ok, raised}
use proxy_gateway_console_pu.Relay.{
  ◌>>=◌, Io, Conn, Effect, dial_direct, dial_upstream, to_client, to_remote, close_remote, routed,
  perform, resume, tunnel,
}

unfoldable pub is_dial : Effect → Bool
is_dial (dial_direct host port) = true
is_dial dial_upstream = true
is_dial e = false

abbrev pub dials : List Effect → List Effect
dials effects = loud_of is_dial effects

one_more :
    (e : Effect) (effects : List Effect)
    → is_dial e ≡ true
    → dials effects ≡ []
    → dials (effects ++ e ∷ []) ≡ e ∷ []
one_more e effects dialled none_yet = loud_of-snoc is_dial effects e ∙ rw (none_yet, dialled) refl

module _ (Q : Effect → Type 0) where
  abbrev pub AtMostOne : List Effect → Type 0
  AtMostOne effects = (dials effects ≡ []) ⊎ ((e : Effect) × Q e × (dials effects ≡ e ∷ []))

  pub carry : (a b : List Effect) → dials b ≡ dials a → AtMostOne a → AtMostOne b
  carry a b same (inl none_yet) = inl (same ∙ none_yet)
  carry a b same (inr (e, fits, one)) = inr (e, fits, same ∙ one)

  module _ {A : Type 0} where
    pub record Once (m : Io Entries A) : Type 0 where
      pub at : (s : Conn Entries) → dials s.trace ≡ [] → AtMostOne (m s).1.trace

    Once-quiet : (m : Io Entries A) → IsQuiet is_dial m → Once m
    Once-quiet m q = record { at = λ s none_yet. inl ((q.at s).0 ∙ none_yet) }

    pub Once-if :
        (b : Bool) (m n : Io Entries A)
        → (b ≡ true → Once m)
        → (b ≡ false → Once n)
        → Once (if b then m else n)
    Once-if true m n om on = om refl
    Once-if false m n om on = on refl

    after_dial :
        (r : Outcome (Unit {0})) (k : Io Entries A) (s : Conn Entries)
        → IsQuiet is_dial k
        → dials (resume r (λ _. k) s).1.trace ≡ dials s.trace
    after_dial (ok u) k s q = (q.at s).0
    after_dial (raised e) k s q = refl

    pub Once-dial :
        (answer : List Effect → Effect → Outcome (Unit {0})) (e : Effect) (k : Io Entries A)
        → Q e
        → is_dial e ≡ true
        → IsQuiet is_dial k
        → Once (perform answer e >>= λ _. k)
    unfolding perform
    Once-dial answer e k fits dialled q = record {
      at = λ s none_yet. inr (
        e,
        fits,
        after_dial (answer s.trace e) k (record s { trace = s.trace ++ e ∷ [] }) q
            ∙ one_more e s.trace dialled none_yet,
      );
    }

    resumed :
        {B : Type 0} (r : Outcome B) (s : Conn Entries) (f : B → Io Entries A)
        → ((b : B) → Once (f b))
        → dials s.trace ≡ []
        → AtMostOne (resume r f s).1.trace
    resumed (ok b) s f of none_yet = (of b).at s none_yet
    resumed (raised e) s f of none_yet = inl none_yet

    Once-bind :
        {B : Type 0} (m : Io Entries B) (f : B → Io Entries A)
        → IsQuiet is_dial m
        → ((r : B) → Once (f r))
        → Once (m >>= f)
    Once-bind m f q of = record {
      at = λ s none_yet. resumed (m s).0 (m s).1 f of ((q.at s).0 ∙ none_yet);
    }

pub client-IsSilent : (t : String) → IsSilent is_dial (to_client t)
unfolding is_dial
client-IsSilent t = refl

pub remote-IsSilent : (t : String) → IsSilent is_dial (to_remote t)
unfolding is_dial
remote-IsSilent t = refl

pub close-IsSilent : IsSilent is_dial close_remote
unfolding is_dial
close-IsSilent = refl

pub routed-IsSilent : (a b c : String) → IsSilent is_dial (routed a b c)
unfolding is_dial
routed-IsSilent a b c = refl

pub tunnel-IsQuiet : (w : World) → IsQuiet is_dial {M = Entries} (tunnel w.answer w.rounds)
tunnel-IsQuiet w = IsQuiet-tunnel is_dial w.answer client-IsSilent remote-IsSilent w.rounds

pub ruleset calls =
    (quiet_rules, client-IsSilent, remote-IsSilent, close-IsSilent, routed-IsSilent, tunnel-IsQuiet)

pub answered-IsQuiet :
    (w : World) (response host : String) (port : ℤ) (mode : String)
    → IsQuiet is_dial (answered w response host port mode)
unfolding answered
answered-IsQuiet w response host port mode = search calls

pub pass_on-IsQuiet :
    (w : World) (reads : List (Outcome String)) → IsQuiet is_dial (pass_on w reads)
unfolding pass_on
pass_on-IsQuiet w [] = search calls
pass_on-IsQuiet w (raised e ∷ reads) = search calls
pass_on-IsQuiet w (ok chunk ∷ reads) = let rest = pass_on-IsQuiet w reads in search calls

pub not_proxy : (mode : String) → (mode == "direct") ≡ true → (mode == "proxy") ≡ false
not_proxy mode h = rw ((eq_iff mode "direct").0 h) refl

pub not_direct : (mode : String) → (mode == "proxy") ≡ true → (mode == "direct") ≡ false
not_direct mode h = rw ((eq_iff mode "proxy").0 h) refl
