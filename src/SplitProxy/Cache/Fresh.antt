-- ===== src/SplitProxy/Cache/Fresh.antt =====
-- How old a decision of the cache can be.
use proxy_gateway_console_pu.Prelude.{
  ◌⊎◌, ◌≢◌, none, subst, ltb, refl, eq_iff, ◌+◌, arith, sym, Option, ◌<◌, [], ◌∷◌, inr, inl, ◌==◌,
  if◌then◌else◌, some, Bool-cases, ◌≡◌, ℕ, String, List,
}
use proxy_gateway_console_pu.SplitProxy.Route.Direct.{choose_route_direct_iff, SentDirect}
use proxy_gateway_console_pu.Outcome.{ok, Outcome}
use proxy_gateway_console_pu.SplitProxy.Address.{Addresses, Net}
use proxy_gateway_console_pu.SplitProxy.Route.{Decision, choose_route, normalized}
use proxy_gateway_console_pu.SplitProxy.Cache.{
  Entries, find, store, look, cache_ttl, if_fresh, Shared, Step, Reach, miss, decide, fail, start,
  next,
}

find-store :
    (k j : String) (e : ℕ × Decision) (c : Entries)
    → find j (store k e c) ≡ (if k == j then some e else find j c)
unfolding find store
find-store k j e [] = refl
find-store k j e ((i, f) ∷ c) =
    ground (arith, eq_iff k j, eq_iff i k, eq_iff i j, find-store k j e c)

module _ (a : Addresses) (cn : List Net) (force_direct force_proxy : List String)
    (answers : ℕ → ℕ → String → Outcome (List String)) where
  -- The decision was made by `choose_route` for this key, for a thread that looked at this time.
  abbrev pub Decided : String → ℕ → Decision → Type 0
  Decided key at d =
      (who : ℕ) × (choose_route a cn force_direct force_proxy (answers at who) key ≡ ok d)

  abbrev IsFaithful : Entries → Type 0
  IsFaithful cache =
      (key : String) (at : ℕ) (d : Decision) → find key cache ≡ some (at, d) → Decided key at d

  pair_inj : {x y : ℕ × Decision} → some x ≡ some y → x ≡ y
  pair_inj e = cc

  store-IsFaithful :
      (key : String) (at : ℕ) (d : Decision) (c : Entries)
      → Decided key at d
      → IsFaithful c
      → IsFaithful (store key (at, d) c)
  store-IsFaithful key at d c made faithful k t e found = elim (Bool-cases (key == k)) [
    | inl same ↦
        let p : (at, d) ≡ (t, e) = pair_inj (rw (find-store key k (at, d) c, same) at found) in
        let moved : Decided k at d = rw (sym ((eq_iff key k).0 same)) made in
        subst (λ (x : ℕ × Decision). Decided k x.0 x.1) p moved
    | inr other ↦ faithful k t e (rw (find-store key k (at, d) c, other) at found)
  ]

  Step-IsFaithful :
      {s t : Shared}
      → Step a cn force_direct force_proxy answers s t
      → IsFaithful s.cache
      → IsFaithful t.cache
  Step-IsFaithful (miss s now host h) faithful = faithful
  Step-IsFaithful (decide s i at who key d found made) faithful =
      store-IsFaithful key at d s.cache (who, made) faithful
  Step-IsFaithful (fail s i) faithful = faithful

  Reach-IsFaithful :
      {s : Shared} → Reach a cn force_direct force_proxy answers s → IsFaithful s.cache
  unfolding find
  Reach-IsFaithful start = λ key at d found. absurd (cc found)
  Reach-IsFaithful (next r st) = Step-IsFaithful st (Reach-IsFaithful r)

  look-fresh :
      (now : ℕ) (key : String) (o : Option (ℕ × Decision)) (d : Decision)
      → if_fresh now o ≡ some d
      → (at : ℕ) × (now < at + cache_ttl) × (o ≡ some (at, d))
  look-fresh now key none d h = absurd (cc h)
  look-fresh now key (some (at, e)) d h = elim (Bool-cases (ltb now (at + cache_ttl))) [
    | inl young ↦ let same : e ≡ d = some_inj (rw young at h) in (at, ground arith, rw same refl)
    | inr old ↦ absurd (cc (rw old at h))
  ]
    where
      some_inj : {x y : Decision} → some x ≡ some y → x ≡ y
      some_inj e = cc

  -- In whatever order the threads take the lock: a decision that a request finds in the cache was made by
  -- `choose_route` for the key of that request, less than 300 seconds before the request looked; and it
  -- is not for a direct connection, or the host met the conditions for one on what the resolver said then.
  pub Reach-fresh :
      (s : Shared) (now : ℕ) (host : String) (d : Decision)
      → Reach a cn force_direct force_proxy answers s
      → look now (normalized host) s.cache ≡ some d
      → (at : ℕ) × (who : ℕ) × (now < at + cache_ttl)
        × (choose_route a cn force_direct force_proxy (answers at who) (normalized host) ≡ ok d)
        × ((d.mode ≢ "direct")
            ⊎ SentDirect a cn force_direct force_proxy (answers at who) (normalized host))
  unfolding look
  Reach-fresh s now host d reach h =
      let (at, young, found) =
        look-fresh now (normalized host) (find (normalized host) s.cache) d h in
      let (who, made) = Reach-IsFaithful reach (normalized host) at d found in
      (
        at,
        who,
        young,
        made,
        elim (Bool-cases (d.mode == "direct")) [
          | inr other ↦ inl (λ e. absurd (cc (other, (eq_iff d.mode "direct").1 e)))
          | inl mode ↦ inr (
              (choose_route_direct_iff a cn force_direct force_proxy (answers at who)
                  (normalized host)).0
                (d, made, (eq_iff d.mode "direct").0 mode))
        ],
      )
