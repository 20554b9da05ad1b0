-- ===== src/RuntimeLauncher/Listeners.antt =====
-- When the plan of agent/runtime_launcher.py has no errors.
use proxy_gateway_console_pu.Json.{
  list, lookup, float, int, get_or, bool, get, obj, nat, str, Json, Fields, field, end, dict, null,
}
use proxy_gateway_console_pu.Prelude.{
  negsuc, pos, ◌⊎◌, eq_iff, Option-cases, ◌≤◌, false, ◌&&◌, ◌==◌, Bool, ℕ, subst, ◌<>◌,
  if◌then◌else◌, ap, ◌∙◌, arith, inl, inr, Bool-cases, refl, sym, ◌∷◌, ◌↔◌, true, [], ◌≡◌, String,
  List,
}
use proxy_gateway_console_pu.RuntimeLauncher.Plan.{
  as_int, is_host, in_port_range, plan_listeners, valid_listener, planned_child,
}
use proxy_gateway_console_pu.Outcome.{Outcome, ok, >>=-eq-ok}

-- A host that is a text and not empty, and a port from 1 to 65535, or `True`, which Python counts as 1.
abbrev pub IsUsable : Fields → Type 0
IsUsable listener =
    ((host : String) × (get "host" listener ≡ str host) × (host ≡ "" → ⊥))
    × (((n : ℕ) × (get "port" listener ≡ nat n) × (1 ≤ n) × (n ≤ 65535))
        ⊎ (get "port" listener ≡ bool true))

-- Each listener is a dict with a host and a port that can be used.
abbrev pub EachValid : Fields → Type 0
EachValid end = Unit
EachValid (field id v rest) =
    ((listener : Fields) × (v ≡ dict listener) × IsUsable listener) × EachValid rest

-- The entry of a listener that is a dict.
abbrev pub child_of : String → Json → Json
child_of id (dict listener) = obj (
    ("id", str id)
    ∷ ("host", get "host" listener)
    ∷ ("port", get "port" listener)
    ∷ ("action", str "planned")
    ∷ [])
child_of id v = null

abbrev pub children_for : Fields → List Json
children_for end = []
children_for (field id v rest) = child_of id v ∷ children_for rest

abbrev Plan : Type 0
Plan = List Json × List Json

plan_inj :
    {a b c d : List Json} → ◌≡◌ {A = Outcome Plan} (ok (a, b)) (ok (c, d)) → (a ≡ c) × (b ≡ d)
plan_inj e = (cc, cc)

no_plan : {a b es : List Json} {x : Json} → ◌≡◌ {A = Outcome Plan} (ok (a, x ∷ es)) (ok (b, [])) → ⊥
no_plan e = cc

dict_inj : {fs gs : Fields} → dict fs ≡ dict gs → fs ≡ gs
dict_inj e = cc

false_isnt : ◌≡◌ {A = Bool} false true → ⊥
false_isnt e = cc

both : (a b : Bool) → (a && b) ≡ true → (a ≡ true) × (b ≡ true)
both true b h = (refl, h)
both false b h = absurd (false_isnt h)

host_usable : (v : Json) → is_host v ≡ true → (s : String) × (v ≡ str s) × (s ≡ "" → ⊥)
host_usable (str s) h = (s, refl, λ e. false_isnt (rw e at h))
host_usable null h = absurd (false_isnt h)
host_usable (bool b) h = absurd (false_isnt h)
host_usable (int z) h = absurd (false_isnt h)
host_usable (float z n) h = absurd (false_isnt h)
host_usable (list xs) h = absurd (false_isnt h)
host_usable (dict fs) h = absurd (false_isnt h)

host_fits : (v : Json) (s : String) → v ≡ str s → (s ≡ "" → ⊥) → is_host v ≡ true
host_fits v s is full = elim (Bool-cases (s == "")) [
  | inl e ↦ absurd (full ((eq_iff s "").0 e))
  | inr e ↦ rw (is, e) refl
]

port_usable :
    (v : Json)
    → in_port_range (as_int v) ≡ true
    → ((n : ℕ) × (v ≡ nat n) × (1 ≤ n) × (n ≤ 65535)) ⊎ (v ≡ bool true)
port_usable (int (pos n)) h = inl (n, refl, ground arith, ground arith)
port_usable (int (negsuc n)) h = absurd (false_isnt h)
port_usable (bool true) h = inr refl
port_usable (bool false) h = absurd (false_isnt h)
port_usable null h = absurd (false_isnt h)
port_usable (str s) h = absurd (false_isnt h)
port_usable (float z n) h = absurd (false_isnt h)
port_usable (list xs) h = absurd (false_isnt h)
port_usable (dict fs) h = absurd (false_isnt h)

port_fits :
    (v : Json)
    → ((n : ℕ) × (v ≡ nat n) × (1 ≤ n) × (n ≤ 65535)) ⊎ (v ≡ bool true)
    → in_port_range (as_int v) ≡ true
port_fits v (inl (n, is, low, high)) = rw is (ground arith)
port_fits v (inr is) = rw is refl

valid_listener-IsUsable : (fs : Fields) → valid_listener fs ≡ true → IsUsable fs
unfolding valid_listener
valid_listener-IsUsable fs h =
    let (a, b) = both _ _ h in (host_usable (get "host" fs) a, port_usable (get "port" fs) b)

IsUsable-valid_listener : (fs : Fields) → IsUsable fs → valid_listener fs ≡ true
unfolding valid_listener
IsUsable-valid_listener fs ((s, is, full), port) =
    rw (host_fits (get "host" fs) s is full, port_fits (get "port" fs) port) refl

get_present :
    (k : String) (d : Json) (fs : Fields) → (get k fs ≡ null → ⊥) → get_or k d fs ≡ get k fs
get_present k d fs there = elim (Option-cases (lookup k fs)) [
  | inl e ↦ absurd (there (rw e refl))
  | inr (v, e) ↦ rw e refl
]

-- For a listener that can be used, the defaults of the entry are not used.
planned_child_lem :
    (id : String) (fs : Fields) → IsUsable fs → planned_child id fs ≡ child_of id (dict fs)
unfolding planned_child
planned_child_lem id fs ((s, is, full), port) =
    rw
      (
        get_present "host" (str "") fs (λ e. cc),
        get_present "port" (nat 0) fs (elim port as (λ p. get "port" fs ≡ null → ⊥) [
          | inl (n, q, low, high) ↦ λ e. cc
          | inr q ↦ λ e. cc
        ]),
      )
      refl

-- The claim for one list of listeners.
abbrev Plans : Fields → Type 0
Plans listeners =
    (children : List Json)
    → (plan_listeners listeners ≡ ok (children, []))
      ↔ (EachValid listeners × (children ≡ children_for listeners))

field-Plans :
    (id : String) (listener rest : Fields) → Plans rest → Plans (field id (dict listener) rest)
unfolding plan_listeners
field-Plans id listener rest on_rest children = (sound, complete)
  where
    after_rest :
        (cs es : List Json)
        → plan_listeners rest ≡ ok (cs, es)
        → ◌≡◌ {A = Outcome Plan}
            (ok (
              if valid_listener listener
              then (planned_child id listener ∷ cs, es)
              else (cs, str ("invalid listener: " <> id) ∷ es)))
            (ok (children, []))
        → EachValid (field id (dict listener) rest)
          × (children ≡ children_for (field id (dict listener) rest))
    after_rest cs es e q = elim (Bool-cases (valid_listener listener)) [
      | inr bad ↦ absurd (no_plan (rw bad at q))
      | inl good ↦
          let (is, none_left) = plan_inj (rw good at q) in
          let (valid, same) = (on_rest cs).0 (e ∙ ap (λ xs. ok (cs, xs)) none_left) in
          let usable = valid_listener-IsUsable listener good in
          (
            ((listener, refl, usable), valid),
            sym is
                ∙ ap (λ xs. planned_child id listener ∷ xs) same
                ∙ ap (λ v. v ∷ children_for rest) (planned_child_lem id listener usable),
          )
    ]

    sound :
        plan_listeners (field id (dict listener) rest) ≡ ok (children, [])
        → EachValid (field id (dict listener) rest)
          × (children ≡ children_for (field id (dict listener) rest))
    sound h = let ((cs, es), e, q) = >>=-eq-ok (plan_listeners rest) _ h in after_rest cs es e q

    complete :
        EachValid (field id (dict listener) rest)
          × (children ≡ children_for (field id (dict listener) rest))
        → plan_listeners (field id (dict listener) rest) ≡ ok (children, [])
    complete (((fs, p, good), valid), is) =
        let usable : IsUsable listener = subst IsUsable (sym (dict_inj p)) good in
        rw ((on_rest (children_for rest)).1 (valid, refl)) (
          rw (IsUsable-valid_listener listener usable)
            (rw is (rw (planned_child_lem id listener usable) refl)))

-- The loop over the listeners ends without an error exactly if each listener is a dict with a host that is
-- a text and not empty, and a port from 1 to 65535, and then its children are the entries with the id, the
-- host and the port of each listener, in order.
pub plan_listeners_iff :
    (listeners : Fields) (children : List Json)
    → (plan_listeners listeners ≡ ok (children, []))
      ↔ (EachValid listeners × (children ≡ children_for listeners))
unfolding plan_listeners
plan_listeners_iff end children = (λ h. (tt, sym (plan_inj h).0), λ p. rw p.1 refl)
plan_listeners_iff (field id (dict listener) rest) children =
    field-Plans id listener rest (plan_listeners_iff rest) children
plan_listeners_iff (field id null rest) children = (λ h. cc, λ (((fs, p, good), valid), is). cc)
plan_listeners_iff (field id v rest) children =
    (λ h. ground arith, λ (((fs, p, good), valid), is). ground arith)
