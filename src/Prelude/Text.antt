-- ===== src/Prelude/Text.antt =====
-- Python's text methods as the program uses them. `lower` and `strip` are those of ASCII text.
use Prim.Native.Nat.{ℕ, zero, suc, ◌+◌, ◌-◌, ◌/◌, ◌%◌}
use Prim.Native.Char.{Char, code}
use Prim.Native.String.{String, ◌++◌, char_at}
use mathlib.Core.Path.{◌≡◌, refl}
use mathlib.Core.Bool.{Bool, true, false, ◌&&◌, ◌||◌}
use mathlib.Core.Option.{Option, none, some}
use text.Mathlib.Text.{◌==◌, find?}
use proxy_gateway_console_pu.Prelude.Tests.{ltb, leb, ◌=?◌, is_some, if◌then◌else◌}
use proxy_gateway_console_pu.Prelude.Int.{ℤ, pos, negsuc}

unfoldable pub lower_char : Char → Char
lower_char c =
    if leb b'A' (code c) && leb (code c) b'Z'
    then char_at "abcdefghijklmnopqrstuvwxyz" (code c - b'A')
    else c

-- s.lower()
unfoldable pub lower : String → String
unfolding lower_char
lower String.[] = String.[]
lower (String.◌∷◌ c s) = String.◌∷◌ (lower_char c) (lower s)

-- s.endswith(t)
unfoldable pub ends_with : String → String → Bool
ends_with String.[] t = "" == t
ends_with (String.◌∷◌ c s) t = String.◌∷◌ c s == t || ends_with s t

-- t in s
abbrev pub str_contains : String → String → Bool
str_contains s t = is_some (find? s t)

-- s.lstrip(chars) and s.rstrip(chars), where `drops` says which characters go
unfoldable pub lstrip : (Char → Bool) → String → String
lstrip drops String.[] = String.[]
lstrip drops (String.◌∷◌ c s) = elim (drops c) [ true ↦ lstrip drops s | false ↦ String.◌∷◌ c s ]

rstrip_onto : (Char → Bool) → Char → String → String
rstrip_onto drops c String.[] = elim (drops c) [ true ↦ String.[] | false ↦ String.◌∷◌ c String.[] ]
rstrip_onto drops c (String.◌∷◌ d s) = String.◌∷◌ c (String.◌∷◌ d s)

unfoldable pub rstrip : (Char → Bool) → String → String
unfolding rstrip_onto
rstrip drops String.[] = String.[]
rstrip drops (String.◌∷◌ c s) = rstrip_onto drops c (rstrip drops s)

unfoldable pub strip : (Char → Bool) → String → String
unfolding lstrip rstrip
strip drops s = rstrip drops (lstrip drops s)

-- The text up to the first occurrence of a character, and what follows it, if it occurs.
unfoldable pub before : ℕ → String → String
before sep String.[] = String.[]
before sep (String.◌∷◌ c s) = elim (code c =? sep) [
  | true ↦ String.[]
  | false ↦ String.◌∷◌ c (before sep s)
]

unfoldable pub after : ℕ → String → Option String
after sep String.[] = none
after sep (String.◌∷◌ c s) = elim (code c =? sep) [ true ↦ some s | false ↦ after sep s ]

digit : ℕ → String
digit d = String.◌∷◌ (char_at "0123456789" d) String.[]

show_fuel : ℕ → ℕ → String
unfolding digit
show_fuel zero n = digit n
show_fuel (suc f) n = elim (ltb n 10) [
  | true ↦ digit n
  | false ↦ show_fuel f (n / 10) ++ digit (n % 10)
]

-- str(n)
unfoldable pub show_ℕ : ℕ → String
unfolding show_fuel
show_ℕ n = show_fuel n n

unfoldable pub show_ℤ : ℤ → String
unfolding show_ℕ
show_ℤ (pos n) = show_ℕ n
show_ℤ (negsuc n) = "-" ++ show_ℕ (n + 1)

show_examples :
    (show_ℕ 18181 ≡ "18181") × (show_ℤ (negsuc 9) ≡ "-10") × (lower "ToKen_9" ≡ "token_9")
unfolding show_ℕ show_ℤ lower
show_examples = (refl, refl, refl)
