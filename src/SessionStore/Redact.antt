-- ===== src/SessionStore/Redact.antt =====
-- `redact_text` and `redact_payload` of agent/session_store.py. The pattern is matched without
-- regard to the case of ASCII letters.
use proxy_gateway_console_pu.Json.{
  null, float, int, bool, Items, Fields, Json, nil, cons, end, field, list, dict, str,
}
use proxy_gateway_console_pu.Prelude.{
  is_space, false, lower, ◌||◌, ltb, ◌==◌, ◌=?◌, starts_with, ◌&&◌, ◌-◌, [], any, code, not, ◌+◌,
  true, if◌then◌else◌, refl, ◌∷◌, Bool, Option, ◌<>◌, List, String, Char, ℕ, ◌≡◌, zero, suc, some,
  none,
}
use proxy_gateway_console_pu.ProfileSchema.Secrets.{
  EntryOfItems, EntryOfFields, EntryOf, in_dict, in_list, here, below, later, element, rest,
}
use Prim.Native.String.{count}

-- the set of redact_payload
abbrev redacted_keys : List String
redacted_keys = "password" ∷ "passwd" ∷ "secret" ∷ "token" ∷ "auth" ∷ "credential" ∷ []

unfoldable pub is_redacted_key : String → Bool
is_redacted_key key = any (λ s. s == lower key) redacted_keys

-- The first group of SECRET_PATTERN, in the order of the alternatives.
abbrev words : List String
words = "password" ∷ "passwd" ∷ "secret" ∷ "token" ∷ "auth" ∷ "server" ∷ "endpoint" ∷ []

-- [^,\s"']
abbrev is_value : Char → Bool
is_value c = not (code c =? b',' || is_space c || code c =? 34 || code c =? 39)

abbrev is_separator : Char → Bool
is_separator c = code c =? b'=' || code c =? b':'

-- How many characters at the front pass the test.
span : (Char → Bool) → String → ℕ
span p String.[] = 0
span p (String.◌∷◌ c s) = elim (p c) [ true ↦ suc (span p s) | false ↦ 0 ]

unfoldable pub take_str : ℕ → String → String
take_str zero s = ""
take_str (suc n) String.[] = ""
take_str (suc n) (String.◌∷◌ c s) = String.◌∷◌ c (take_str n s)

unfoldable pub drop_str : ℕ → String → String
drop_str zero s = s
drop_str (suc n) String.[] = ""
drop_str (suc n) (String.◌∷◌ c s) = drop_str n s

-- The length of the word that stands at the front, or 0.
word_length : List String → String → ℕ
word_length [] s = 0
word_length (w ∷ ws) s = if starts_with s w then count w else word_length ws s

-- The lengths of the first two groups and of the third, where the pattern matches at the front.
match_separator : ℕ → String → Option (ℕ × ℕ)
unfolding span
match_separator n String.[] = none
match_separator n (String.◌∷◌ c s) =
    let spaces = span is_space s in
    let value = span is_value (drop_str spaces s) in
    if is_separator c && ltb 0 value then some (n + 1 + spaces, value) else none

match_here : String → Option (ℕ × ℕ)
unfolding word_length match_separator drop_str lower
match_here s =
    let n = word_length words (lower s) in if n =? 0 then none else match_separator n (drop_str n s)

-- The substitution, from left to right; `skip` counts what is left of the last match.
redact_from : ℕ → String → String
unfolding match_here take_str
redact_from skip String.[] = ""
redact_from (suc skip) (String.◌∷◌ c s) = redact_from skip s
redact_from zero (String.◌∷◌ c s) = elim (match_here (String.◌∷◌ c s)) [
  | none ↦ String.◌∷◌ c (redact_from 0 s)
  | some (kept, value) ↦
      take_str kept (String.◌∷◌ c s) <> "[redacted]" <> redact_from (kept + value - 1) s
]

unfoldable pub redact_text : String → String
unfolding redact_from
redact_text s = redact_from 0 s

redact_text_example :
    redact_text "x Token: abc, server=h:1 auth= q"
    ≡ "x Token: [redacted], server=[redacted] auth= [redacted]"
unfolding redact_text lower
redact_text_example = refl

unfoldable mutual
  pub redact_payload : Json → Json
  redact_payload (dict fs) = dict (redact_fields fs)
  redact_payload (list xs) = list (redact_items xs)
  redact_payload (str s) = str (redact_text s)
  redact_payload v = v

  pub redact_fields : Fields → Fields
  redact_fields end = end
  redact_fields (field k v fs) =
      field k (if is_redacted_key k then str "[redacted]" else redact_payload v) (redact_fields fs)

  pub redact_items : Items → Items
  redact_items nil = nil
  redact_items (cons v xs) = cons (redact_payload v) (redact_items xs)

abbrev pub IsRedacted : Json → Type 0
IsRedacted j =
    (k : String) (v : Json) → EntryOf k v j → is_redacted_key k ≡ true → v ≡ str "[redacted]"

redacted_value :
    {k : String} {v : Json} (b : Bool) (w : Json)
    → EntryOf k v (if b then str "[redacted]" else redact_payload w)
    → (EntryOf k v (redact_payload w) → v ≡ str "[redacted]")
    → v ≡ str "[redacted]"
redacted_value true w e h = elim e [ ]
redacted_value false w e h = h e

mutual
  unfolding redact_payload

  redacted :
      {k : String} {v : Json} (j : Json)
      → EntryOf k v (redact_payload j)
      → is_redacted_key k ≡ true
      → v ≡ str "[redacted]"
  redacted (dict fs) (in_dict e) s = redacted_fields fs e s
  redacted (list xs) (in_list e) s = redacted_items xs e s
  redacted null e s = elim e [ ]
  redacted (bool b) e s = elim e [ ]
  redacted (int z) e s = elim e [ ]
  redacted (float z n) e s = elim e [ ]
  redacted (str t) e s = elim e [ ]

  redacted_fields :
      {k : String} {v : Json} (fs : Fields)
      → EntryOfFields k v (redact_fields fs)
      → is_redacted_key k ≡ true
      → v ≡ str "[redacted]"
  redacted_fields end e s = elim e [ ]
  redacted_fields (field j w fs) here s = rw s
  redacted_fields (field j w fs) (below e) s =
      redacted_value (is_redacted_key j) w e (λ f. redacted w f s)
  redacted_fields (field j w fs) (later e) s = redacted_fields fs e s

  redacted_items :
      {k : String} {v : Json} (xs : Items)
      → EntryOfItems k v (redact_items xs)
      → is_redacted_key k ≡ true
      → v ≡ str "[redacted]"
  redacted_items nil e s = elim e [ ]
  redacted_items (cons w xs) (element e) s = redacted w e s
  redacted_items (cons w xs) (rest e) s = redacted_items xs e s

-- Whatever the payload, every entry of a secret key that is left after redaction, at any depth,
-- holds the text "[redacted]".
pub redact_payload-IsRedacted : (j : Json) → IsRedacted (redact_payload j)
redact_payload-IsRedacted j k v e s = redacted j e s
