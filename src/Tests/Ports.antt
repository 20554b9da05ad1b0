-- ===== src/Tests/Ports.antt =====
-- The theorems on the registry of ports, at concrete data.
use proxy_gateway_console_pu.Outcome.{Outcome, ok}
use proxy_gateway_console_pu.PortRegistry.Distinct.{
  Allocated, allocate_lem, allocate_all_lem, IsDistinct, Holds,
}
use proxy_gateway_console_pu.Prelude.{eq_iff, arith, refl, ◌≡◌, ◌+◌, ◌∷◌, String, [], ℕ, List}
use proxy_gateway_console_pu.PortRegistry.{empty, listener, try_ports, allocate, allocate_all}
use proxy_gateway_console_pu.Json.{fields, Fields}

abbrev counting : ℕ → String → Outcome ℕ
counting k host = ok (20000 + k)

abbrev three : List (String × String)
three = ("dashboard", "127.0.0.1") ∷ ("unlock", "127.0.0.1") ∷ ("lanProxy", "192.168.1.5") ∷ []

allocate_lem_example :
    Allocated counting "unlock" "127.0.0.1" empty (allocate counting "unlock" "127.0.0.1" empty)
allocate_lem_example =
    allocate_lem counting "unlock" "127.0.0.1" empty
      (λ e. absurd (ground (arith, eq_iff "unlock" "")))

abbrev given : Fields
given = fields (
    ("dashboard", listener "127.0.0.1" 20000)
    ∷ ("unlock", listener "127.0.0.1" 20001)
    ∷ ("lanProxy", listener "192.168.1.5" 20002)
    ∷ [])

gives : (allocate_all counting three empty).0 ≡ ok given
unfolding allocate_all allocate try_ports
gives = refl

allocate_all_lem_example :
    Holds three given [] (allocate_all counting three empty).1.allocated
    × IsDistinct (allocate_all counting three empty).1.allocated
allocate_all_lem_example = allocate_all_lem counting three empty given gives tt
