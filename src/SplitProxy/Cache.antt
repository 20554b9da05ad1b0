-- ===== src/SplitProxy/Cache.antt =====
-- `SplitHttpProxy.route` of runtime/proxy-stack/iphone_lan_split_proxy.py: the cache of decisions that
-- the threads of the server share. Time is in microseconds.
pub mod Fresh
use proxy_gateway_console_pu.Prelude.{
  ◌+◌, ◌==◌, ltb, zero, none, if◌then◌else◌, ◌≡◌, [], some, suc, Option, ◌∷◌, List, ℕ, String,
}
use proxy_gateway_console_pu.Outcome.{ok, raised, Outcome}
use proxy_gateway_console_pu.SplitProxy.Address.{Addresses, Net}
use proxy_gateway_console_pu.SplitProxy.Route.{Decision, choose_route, normalized}

abbrev pub Entries : Type 0
Entries = List (String × (ℕ × Decision))

-- CACHE_TTL
abbrev pub cache_ttl : ℕ
cache_ttl = 300_000_000

unfoldable pub find : String → Entries → Option (ℕ × Decision)
find key [] = none
find key ((k, entry) ∷ rest) = if k == key then some entry else find key rest

unfoldable pub store : String → ℕ × Decision → Entries → Entries
store key entry [] = (key, entry) ∷ []
store key entry ((k, old) ∷ rest) =
    if k == key then (key, entry) ∷ rest else (k, old) ∷ store key entry rest

-- `now - cached[0] < CACHE_TTL`, also for a clock that has gone back
abbrev pub if_fresh : ℕ → Option (ℕ × Decision) → Option Decision
if_fresh now none = none
if_fresh now (some (at, d)) = if ltb now (at + cache_ttl) then some d else none

-- The first locked block.
unfoldable pub look : ℕ → String → Entries → Option Decision
look now key cache = if_fresh now (find key cache)

-- The second locked block, after a decision that was made without the lock.
abbrev pub settle : ℕ → String → Entries → Outcome Decision → Outcome Decision × Entries
settle now key cache (raised e) = (raised e, cache)
settle now key cache (ok d) = (ok d, store key (now, d) cache)

module _ (a : Addresses) (cn_networks : List Net) (force_direct force_proxy : List String) where
  -- A request that no other thread comes between.
  unfoldable pub route :
      ℕ → (String → Outcome (List String)) → String → Entries → Outcome Decision × Entries
  route now resolver host cache =
      let key = normalized host in
      elim (look now key cache) [
        | some d ↦ (ok d, cache)
        | none ↦
            settle now key cache (choose_route a cn_networks force_direct force_proxy resolver key)
      ]

-- The threads between their two locked blocks: when each looked, and for which key.
pub record Shared : Type 0 where
  pub cache : Entries
  pub pending : List (ℕ × String)

abbrev pub without_at : ℕ → List (ℕ × String) → List (ℕ × String)
without_at i [] = []
without_at zero (x ∷ xs) = xs
without_at (suc i) (x ∷ xs) = x ∷ without_at i xs

abbrev pub thread_at : ℕ → List (ℕ × String) → Option (ℕ × String)
thread_at i [] = none
thread_at zero (x ∷ xs) = some x
thread_at (suc i) (x ∷ xs) = thread_at i xs

module _ (a : Addresses) (cn : List Net) (force_direct force_proxy : List String)
    (answers : ℕ → ℕ → String → Outcome (List String)) where
  -- One locked block of one thread. `answers` is what the resolver says to the thread that looked at a
  -- time, whichever of the threads of that time it is.
  pub data Step : Shared → Shared → Type 0 where
    miss :
        (s : Shared) (now : ℕ) (host : String)
        → look now (normalized host) s.cache ≡ none
        → Step s (record s { pending = (now, normalized host) ∷ s.pending })
    decide :
        (s : Shared) (i at who : ℕ) (key : String) (d : Decision)
        → thread_at i s.pending ≡ some (at, key)
        → choose_route a cn force_direct force_proxy (answers at who) key ≡ ok d
        → Step s (record { cache = store key (at, d) s.cache; pending = without_at i s.pending })
    fail : (s : Shared) (i : ℕ) → Step s (record s { pending = without_at i s.pending })

  -- What the threads can make of a cache that starts empty.
  pub data Reach : Shared → Type 0 where
    start : Reach (record { cache = []; pending = [] })
    next : {s t : Shared} → Reach s → Step s t → Reach t
