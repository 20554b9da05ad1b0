-- ===== src/Prelude/Split.antt =====
-- Python's `split`, `rsplit` and `int` on ASCII text.
use Prim.Native.Nat.{ℕ, zero, suc, ◌+◌, ◌-◌, ◌*◌}
use Prim.Native.Char.{Char, code}
use Prim.Native.String.{String, ◌++◌}
use mathlib.Core.Path.{◌≡◌, refl}
use mathlib.Core.Bool.{Bool, true, false, not, ◌&&◌, ◌||◌}
use mathlib.Core.Option.{Option, none, some}
use mathlib.Core.List.{List, [], ◌∷◌}
use text.Mathlib.Text.{◌==◌}
use proxy_gateway_console_pu.Prelude.Tests.{leb, ◌=?◌, if◌then◌else◌}
use proxy_gateway_console_pu.Prelude.Lists.{select}
use proxy_gateway_console_pu.Prelude.Int.{ℤ, pos, negsuc}
use proxy_gateway_console_pu.Prelude.Text.{strip}

abbrev pub is_space : Char → Bool
is_space c =
    code c =? 32 || (leb 9 (code c) && leb (code c) 13) || (leb 28 (code c) && leb (code c) 31)

abbrev pub is_digit : Char → Bool
is_digit c = leb b'0' (code c) && leb (code c) b'9'

abbrev onto_head : Char → List String → List String
onto_head c [] = String.◌∷◌ c String.[] ∷ []
onto_head c (x ∷ xs) = String.◌∷◌ c x ∷ xs

-- len(s)
unfoldable pub str_length : String → ℕ
str_length String.[] = 0
str_length (String.◌∷◌ c s) = suc (str_length s)

abbrev pub concat_str : List String → String
concat_str [] = ""
concat_str (s ∷ ss) = s ++ concat_str ss

-- s.split("\r\n")
unfoldable pub split_lines : String → List String
split_lines String.[] = "" ∷ []
split_lines (String.◌∷◌ c String.[]) = String.◌∷◌ c String.[] ∷ []
split_lines (String.◌∷◌ c (String.◌∷◌ d s)) = elim (code c =? 13 && code d =? 10) [
  | true ↦ "" ∷ split_lines s
  | false ↦ onto_head c (split_lines (String.◌∷◌ d s))
]

-- s.split(sep), for a character
unfoldable pub split_at : ℕ → String → List String
split_at sep String.[] = "" ∷ []
split_at sep (String.◌∷◌ c s) = elim (code c =? sep) [
  | true ↦ "" ∷ split_at sep s
  | false ↦ onto_head c (split_at sep s)
]

split_spaces : String → List String
split_spaces String.[] = "" ∷ []
split_spaces (String.◌∷◌ c s) = elim (is_space c) [
  | true ↦ "" ∷ split_spaces s
  | false ↦ onto_head c (split_spaces s)
]

-- s.split()
unfoldable pub words : String → List String
unfolding split_spaces
words s = select (λ w. not (w == "")) (split_spaces s)

-- s.rsplit(sep, 1), where the character occurs
unfoldable pub split_last : ℕ → String → Option (String × String)
split_last sep String.[] = none
split_last sep (String.◌∷◌ c s) = elim (split_last sep s) [
  | some (a, b) ↦ some (String.◌∷◌ c a, b)
  | none ↦ elim (code c =? sep) [ true ↦ some ("", s) | false ↦ none ]
]

-- s.isdigit()
abbrev all_digits : String → Bool
all_digits String.[] = true
all_digits (String.◌∷◌ c s) = is_digit c && all_digits s

unfoldable pub isdigit : String → Bool
isdigit s = not (s == "") && all_digits s

-- The digits of a number, with single underscores between them; the flag says that the last character
-- was a digit.
unfoldable pub read_digits : ℕ → Bool → String → Option ℕ
read_digits n after_digit String.[] = if after_digit then some n else none
read_digits n after_digit (String.◌∷◌ c s) = elim (is_digit c) [
  | true ↦ read_digits (n * 10 + (code c - b'0')) true s
  | false ↦ elim (code c =? b'_' && after_digit) [ true ↦ read_digits n false s | false ↦ none ]
]

abbrev negated : Option ℕ → Option ℤ
negated none = none
negated (some zero) = some (pos 0)
negated (some (suc n)) = some (negsuc n)

abbrev positive : Option ℕ → Option ℤ
positive none = none
positive (some n) = some (pos n)

read_signed : String → Option ℤ
read_signed String.[] = none
read_signed (String.◌∷◌ c s) =
    if code c =? b'-'
    then negated (read_digits 0 false s)
    else if code c =? b'+'
    then positive (read_digits 0 false s)
    else positive (read_digits 0 false (String.◌∷◌ c s))

-- int(s), none where it raises `ValueError`
unfoldable pub read_int : String → Option ℤ
unfolding read_signed
read_int s = read_signed (strip is_space s)

split_examples :
    (words " a  bc " ≡ "a" ∷ "bc" ∷ [])
    × (split_last b':' "a:b:80" ≡ some ("a:b", "80"))
    × (read_int " -1_0 " ≡ some (negsuc 9))
    × (read_int "1__0" ≡ none)
unfolding words split_last read_int read_digits strip
split_examples = (refl, refl, refl, refl)
