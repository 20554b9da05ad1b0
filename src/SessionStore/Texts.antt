-- ===== src/SessionStore/Texts.antt =====
-- The texts that `redact_payload` of agent/session_store.py leaves in a payload.
use proxy_gateway_console_pu.Prelude.{
  if◌then◌else◌, Bool, true, false, String, ◌≡◌, ◌⊎◌, inl, inr, refl,
}
use proxy_gateway_console_pu.Json.{
  null, float, int, bool, Items, Fields, Json, nil, cons, end, field, list, dict, str,
}
use proxy_gateway_console_pu.SessionStore.Redact.{
  redact_payload, redact_fields, redact_items, redact_text, is_redacted_key, IsRedacted,
  redact_payload-IsRedacted,
}

-- A text that `redact_text` has been over, or that stands for a secret.
abbrev pub IsRedactedText : String → Type 0
IsRedactedText s = (s ≡ "[redacted]") ⊎ ((original : String) × (s ≡ redact_text original))

-- Every text among the values, at any depth, is such a text.
unfoldable mutual
  pub HasRedactedTexts : Json → Type 0
  HasRedactedTexts (dict fs) = InFields fs
  HasRedactedTexts (list xs) = InItems xs
  HasRedactedTexts (str s) = IsRedactedText s
  HasRedactedTexts v = Unit

  pub InFields : Fields → Type 0
  InFields end = Unit
  InFields (field k v fs) = HasRedactedTexts v × InFields fs

  pub InItems : Items → Type 0
  InItems nil = Unit
  InItems (cons v xs) = HasRedactedTexts v × InItems xs

-- A line of the log: its secret entries are blanked, and its texts have been redacted.
abbrev pub IsLogLine : Json → Type 0
IsLogLine v = IsRedacted v × HasRedactedTexts v

value_texts :
    (secret : Bool) (v : Json)
    → HasRedactedTexts v
    → HasRedactedTexts (if secret then str "[redacted]" else v)
unfolding HasRedactedTexts
value_texts true v h = inl refl
value_texts false v h = h

mutual
  unfolding redact_payload HasRedactedTexts

  texts : (j : Json) → HasRedactedTexts (redact_payload j)
  texts (dict fs) = texts_of_fields fs
  texts (list xs) = texts_of_items xs
  texts (str s) = inr (s, refl)
  texts null = tt
  texts (bool b) = tt
  texts (int z) = tt
  texts (float z n) = tt

  texts_of_fields : (fs : Fields) → InFields (redact_fields fs)
  texts_of_fields end = tt
  texts_of_fields (field k v fs) =
      (value_texts (is_redacted_key k) (redact_payload v) (texts v), texts_of_fields fs)

  texts_of_items : (xs : Items) → InItems (redact_items xs)
  texts_of_items nil = tt
  texts_of_items (cons v xs) = (texts v, texts_of_items xs)

pub redact_payload-IsLogLine : (j : Json) → IsLogLine (redact_payload j)
redact_payload-IsLogLine j = (redact_payload-IsRedacted j, texts j)
