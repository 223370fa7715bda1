-- ===== src/Llm.antt =====
-- apps/api/src/routes/llm.rs: reading the JSON in a model's answer, and masking the values that are sent
-- to the model. serde_json's parser and the three replacements by regular expressions are arguments.
pub mod Laws
use migration_platform.Prelude.{
  ℕ, zero, suc, ◌+◌, Bool, true, false, Option, none, some, List, [], ◌∷◌, Result, ok, err, length,
  take, to_option, leb, ◌==◌, if◌then◌else◌,
}
use migration_platform.Text.{Str, trim}
use migration_platform.Json.{
  Value, null, bool, number, string, array, object, Values, nil, cons, Fields, end, field,
}

abbrev next_at : Option ℕ → Option ℕ
next_at none = none
next_at (some n) = some (suc n)

-- `find` and `rfind` with a character, as positions in the list of characters.
unfoldable pub find : ℕ → Str → Option ℕ
find p [] = none
find p (c ∷ s) = let rest = next_at (find p s) in if c == p then some 0 else rest

abbrev last_of : Bool → Option ℕ → Option ℕ
last_of here (some n) = some (suc n)
last_of true none = some 0
last_of false none = none

unfoldable pub rfind : ℕ → Str → Option ℕ
rfind p [] = none
rfind p (c ∷ s) = last_of (c == p) (rfind p s)

abbrev pub drop : ℕ → Str → Str
drop zero s = s
drop (suc n) [] = []
drop (suc n) (c ∷ s) = drop n s

-- The slice of a text panics if it begins behind its end.
pub data Extracted : Type 0 where
  panic : Extracted
  done : Option Value → Extracted

module _ (from_str : Str → Result Str Value) where
  -- `&trimmed[start..=end]`
  unfoldable pub parse_between : ℕ → ℕ → Str → Extracted
  parse_between first last s =
      if leb first (suc last)
      then done (to_option (from_str (drop first (take (suc last) s))))
      else panic

  unfoldable pub parse_braces : Str → Extracted
  unfolding find rfind parse_between
  parse_braces s = elim (find b'{' s) [
    | none ↦ done none
    | some first ↦ elim (rfind b'}' s) [ none ↦ done none | some last ↦ parse_between first last s ]
  ]

  unfoldable pub extract_json : Str → Extracted
  unfolding parse_braces trim
  extract_json content = elim (from_str (trim content)) [
    | ok v ↦ done (some v)
    | err e ↦ parse_braces (trim content)
  ]

module _ (email_mask digits_mask phone_mask : Str → Str) where
  unfoldable pub redact_text : Str → Str
  redact_text s = phone_mask (digits_mask (email_mask s))

  unfoldable mutual
    unfolding redact_text

    pub redact_value : Value → Value
    redact_value (string s) = string (redact_text s)
    redact_value (object fs) = object (redact_fields fs)
    redact_value (array vs) = array (redact_values vs)
    redact_value null = null
    redact_value (bool b) = bool b
    redact_value (number n) = number n

    pub redact_fields : Fields → Fields
    redact_fields end = end
    redact_fields (field k v fs) = field k (redact_value v) (redact_fields fs)

    pub redact_values : Values → Values
    redact_values nil = nil
    redact_values (cons v vs) = cons (redact_value v) (redact_values vs)
