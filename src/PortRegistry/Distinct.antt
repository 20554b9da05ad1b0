-- ===== src/PortRegistry/Distinct.antt =====
-- What the registry of agent/port_registry.py gives, and when it fails.
use proxy_gateway_console_pu.Prelude.{
  sym, Option, subst, eq_iff, ◌==◌, ◌<>◌, Bool-cases, ◌⊎◌, [], ◌∷◌, true, false, ◌+◌, arith, ◌<◌,
  ◌≢◌, ◌≡◌, String, List, ℕ, zero, suc, some, none, inl, inr, refl,
}
use proxy_gateway_console_pu.PortRegistry.{
  allocated_or, listener, is_taken, Registry, try_ports, allocate, allocate_all,
}
use proxy_gateway_console_pu.Outcome.{Exception, Outcome, Outcome-cases, runtime_error, raised, ok}
use proxy_gateway_console_pu.Json.{field, end, Fields}

abbrev pub IsDistinct : List (String × ℕ) → Type 0
IsDistinct [] = Unit
IsDistinct ((h, p) ∷ rest) = (is_taken h p rest ≡ false) × IsDistinct rest

-- The hosts and ports of a dict of listeners that were allocated, the last one first.
abbrev pub Holds : List (String × String) → Fields → List (String × ℕ) → List (String × ℕ) → Type 0
Holds [] fs before after = (fs ≡ end) × (after ≡ before)
Holds ((id, host) ∷ rest) fs before after =
    (p : ℕ) × (gs : Fields) × (fs ≡ field id (listener host p) gs)
    × Holds rest gs ((host, p) ∷ before) after

module _ (answers : ℕ → String → Outcome ℕ) where
  -- The k-th call from here gives a port of the host that was taken before.
  abbrev pub AnswersTaken : String → Registry → ℕ → Type 0
  AnswersTaken host r k =
      (p : ℕ) × (answers (r.calls + k) host ≡ ok p) × (is_taken host p r.allocated ≡ true)

  -- What the rounds end with: a port that was free; none, each answer being taken; or what the allocator
  -- raised, after answers that were taken.
  abbrev Tried : ℕ → String → Registry → Outcome (Option ℕ) × Registry → Type 0
  Tried rounds host r (ok (some p), r') =
      (is_taken host p r.allocated ≡ false) × (r'.allocated ≡ (host, p) ∷ r.allocated)
  Tried rounds host r (ok none, r') =
      ((k : ℕ) → k < rounds → AnswersTaken host r k) × (r'.allocated ≡ r.allocated)
  Tried rounds host r (raised e, r') =
      (r'.allocated ≡ r.allocated)
      × ((n : ℕ) × (n < rounds)
          × (answers (r.calls + n) host ≡ raised e)
          × ((k : ℕ) → k < n → AnswersTaken host r k))

  abbrev next_call : Registry → Registry
  next_call r = record r { calls = r.calls + 1 }

  taken_from :
      (n : ℕ) (host : String) (r : Registry) (p : ℕ)
      → answers r.calls host ≡ ok p
      → is_taken host p r.allocated ≡ true
      → ((k : ℕ) → k < n → AnswersTaken host (next_call r) k)
      → (k : ℕ) → k < suc n
      → AnswersTaken host r k
  taken_from n host r p q taken all zero h =
      let e : r.calls + 0 ≡ r.calls = omega arith in (p, rw e q, taken)
  taken_from n host r p q taken all (suc k) h =
      let e : r.calls + suc k ≡ r.calls + 1 + k = omega arith in rw e (all k (omega arith))

  after_taken :
      (rounds : ℕ) (host : String) (r : Registry) (p : ℕ) (out : Outcome (Option ℕ) × Registry)
      → answers r.calls host ≡ ok p
      → is_taken host p r.allocated ≡ true
      → Tried rounds host (next_call r) out
      → Tried (suc rounds) host r out
  after_taken rounds host r p (ok (some found), r') q taken tried = tried
  after_taken rounds host r p (ok none, r') q taken (all, same) =
      (taken_from rounds host r p q taken all, same)
  after_taken rounds host r p (raised e, r') q taken (same, (n, bound, failed, all)) =
      let next : r.calls + suc n ≡ r.calls + 1 + n = omega arith in
      (same, (suc n, omega (arith, bound), rw next failed, taken_from n host r p q taken all))

  try_raised :
      (n : ℕ) (host : String) (r : Registry) (e : Exception)
      → answers r.calls host ≡ raised e
      → try_ports answers (suc n) host r ≡ (raised e, next_call r)
  unfolding try_ports
  try_raised n host r e q = ground (arith, q)

  try_taken :
      (n : ℕ) (host : String) (r : Registry) (p : ℕ)
      → answers r.calls host ≡ ok p
      → is_taken host p r.allocated ≡ true
      → try_ports answers (suc n) host r ≡ try_ports answers n host (next_call r)
  unfolding try_ports
  try_taken n host r p q taken = ground (arith, q, taken)

  try_free :
      (n : ℕ) (host : String) (r : Registry) (p : ℕ)
      → answers r.calls host ≡ ok p
      → is_taken host p r.allocated ≡ false
      → try_ports answers (suc n) host r
        ≡ (ok (some p), record { allocated = (host, p) ∷ r.allocated; calls = r.calls + 1 })
  unfolding try_ports
  try_free n host r p q free = ground (arith, q, free)

  try_ports-Tried :
      (rounds : ℕ) (host : String) (r : Registry)
      → Tried rounds host r (try_ports answers rounds host r)
  try_ports-Tried zero host r = unfold try_ports in (λ k h. elim h [ ], refl)
  try_ports-Tried (suc n) host r =
      let rest = try_ports-Tried n host (next_call r) in
      elim (Outcome-cases (answers r.calls host)) [
        | inr (e, q) ↦
            let here : r.calls + 0 ≡ r.calls = omega arith in
            subst (Tried (suc n) host r) (sym (try_raised n host r e q))
              (refl, (0, omega arith, rw here q, λ k h. elim h [ ]))
        | inl (p, q) ↦ elim (Bool-cases (is_taken host p r.allocated)) [
          | inl taken ↦
              subst (Tried (suc n) host r) (sym (try_taken n host r p q taken))
                (after_taken n host r p (try_ports answers n host (next_call r)) q taken rest)
          | inr free ↦ subst (Tried (suc n) host r) (sym (try_free n host r p q free)) (free, refl)
        ]
      ]

  -- What `allocate` ends with, for the port of a listener.
  abbrev pub Allocated : String → String → Registry → Outcome ℕ × Registry → Type 0
  Allocated id host r (result, r') =
      ((p : ℕ) × (result ≡ ok p)
        × (is_taken host p r.allocated ≡ false)
        × (r'.allocated ≡ (host, p) ∷ r.allocated))
      ⊎ (((result ≡ raised (runtime_error ("could not allocate a free port for " <> id)))
            × (r'.allocated ≡ r.allocated)
            × ((k : ℕ) → k < 64 → AnswersTaken host r k))
          ⊎ ((e : Exception) × (n : ℕ) × (result ≡ raised e)
              × (r'.allocated ≡ r.allocated)
              × (n < 64)
              × (answers (r.calls + n) host ≡ raised e)))

  by_answers :
      (id host : String) (r : Registry) (out : Outcome (Option ℕ) × Registry)
      → Tried 64 host r out
      → Allocated id host r (allocated_or id out.0, out.1)
  by_answers id host r (ok (some p), r') (free, new) = inl (p, refl, free, new)
  by_answers id host r (ok none, r') (all, same) = inr (inl (refl, same, all))
  by_answers id host r (raised e, r') (same, (n, bound, failed, all)) =
      inr (inr (e, n, refl, same, bound, failed))

  -- A port that `allocate` returns was not taken and is recorded. It raises `RuntimeError` where each of
  -- the 64 answers that it asked for is a port of that host that was taken before, and otherwise what one
  -- of those answers raised; then the registry is as it was.
  pub allocate_lem :
      (id host : String) (r : Registry) → id ≢ "" → Allocated id host r (allocate answers id host r)
  unfolding allocate
  allocate_lem id host r named =
      let e : (id == "") ≡ false = ground (arith, eq_iff id "") in
      rw e (by_answers id host r (try_ports answers 64 host r) (try_ports-Tried 64 host r))

  fresh_of :
      (id host : String) (r : Registry) (p : ℕ) (out : Outcome ℕ × Registry)
      → Allocated id host r out
      → out.0 ≡ ok p
      → (is_taken host p r.allocated ≡ false) × (out.1.allocated ≡ (host, p) ∷ r.allocated)
  fresh_of id host r p (result, r') (inl (found, is, free, new)) e =
      let same : found ≡ p = cc in
      (
        subst (λ x. is_taken host x r.allocated ≡ false) same free,
        subst (λ x. r'.allocated ≡ (host, x) ∷ r.allocated) same new,
      )
  fresh_of id host r p (result, r') (inr (inl (is, same, all))) e = absurd cc
  fresh_of id host r p (result, r') (inr (inr (x, n, is, same, bound, failed))) e = absurd cc

  allocate_fresh :
      (id host : String) (r : Registry) (p : ℕ)
      → (allocate answers id host r).0 ≡ ok p
      → (is_taken host p r.allocated ≡ false)
        × ((allocate answers id host r).1.allocated ≡ (host, p) ∷ r.allocated)
  unfolding allocate
  allocate_fresh id host r p e = elim (Bool-cases (id == "")) [
    | inl unnamed ↦ absurd (cc (rw (unnamed, allocate) at e))
    | inr named ↦
        fresh_of id host r p (allocate answers id host r)
          (allocate_lem id host r (λ q. absurd (ground (arith, eq_iff id "", named, q)))) e
  ]

  allocate_all_ok :
      (id host : String) (rest : List (String × String)) (r : Registry) (p : ℕ) (gs : Fields)
      → (allocate answers id host r).0 ≡ ok p
      → (allocate_all answers rest (allocate answers id host r).1).0 ≡ ok gs
      → allocate_all answers ((id, host) ∷ rest) r ≡ (
        ok (field id (listener host p) gs),
        (allocate_all answers rest (allocate answers id host r).1).1,
      )
  unfolding allocate_all
  allocate_all_ok id host rest r p gs gave more = ground (arith, gave, more)

  allocate_all_inv :
      (id host : String) (rest : List (String × String)) (r : Registry) (fs : Fields)
      → (allocate_all answers ((id, host) ∷ rest) r).0 ≡ ok fs
      → (p : ℕ) × (gs : Fields) × ((allocate answers id host r).0 ≡ ok p)
        × ((allocate_all answers rest (allocate answers id host r).1).0 ≡ ok gs)
  unfolding allocate_all
  allocate_all_inv id host rest r fs e = elim (Outcome-cases (allocate answers id host r).0) [
    | inr (x, failed) ↦ absurd (cc (rw (failed, allocate_all) at e))
    | inl (p, gave) ↦
        elim (Outcome-cases (allocate_all answers rest (allocate answers id host r).1).0) [
          | inr (x, failed) ↦ absurd (cc (rw (gave, failed, allocate_all) at e))
          | inl (gs, more) ↦ (p, gs, gave, more)
        ]
  ]

  -- A row of allocations that succeeds gives each listener, in order, a port that its host had not
  -- given before, so the registry stays without repetition.
  pub allocate_all_lem :
      (wanted : List (String × String)) (r : Registry) (fs : Fields)
      → (allocate_all answers wanted r).0 ≡ ok fs
      → IsDistinct r.allocated
      → Holds wanted fs r.allocated (allocate_all answers wanted r).1.allocated
        × IsDistinct (allocate_all answers wanted r).1.allocated
  allocate_all_lem [] r fs e d = unfold allocate_all in ((ground arith, refl), d)
  allocate_all_lem ((id, host) ∷ rest) r fs e d =
      let (p, gs, gave, more) = allocate_all_inv id host rest r fs e in
      let (free, new) = allocate_fresh id host r p gave in
      let both = allocate_all_ok id host rest r p gs gave more in
      let (held, distinct) =
        allocate_all_lem rest (allocate answers id host r).1 gs more (rw new (free, d)) in
      rw both ((p, gs, first_is both, rw new at held), distinct)
    where
      first_is :
          {p : ℕ} {gs : Fields} {r' : Registry}
          → allocate_all answers ((id, host) ∷ rest) r ≡ (ok (field id (listener host p) gs), r')
          → fs ≡ field id (listener host p) gs
      first_is both = cc (e, both)
