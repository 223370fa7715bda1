-- ===== src/Llm/Laws.antt =====
-- apps/api/src/routes/llm.rs: every text that is sent has been masked, at any depth.
use migration_platform.Prelude.{◌≡◌, refl, List, [], ◌∷◌, ◌++◌, map, ap}
use migration_platform.Text.{Str}
use migration_platform.Json.{
  Value, null, bool, number, string, array, object, Values, nil, cons, Fields, end, field,
}
use migration_platform.Llm.{redact_text, redact_value, redact_fields, redact_values}

map-append : (f : Str → Str) (xs ys : List Str) → map f (xs ++ ys) ≡ map f xs ++ map f ys
map-append f [] ys = refl
map-append f (x ∷ xs) ys = ap (λ t. f x ∷ t) (map-append f xs ys)

-- The texts in a value, but for the keys of its objects.
unfoldable mutual
  pub texts : Value → List Str
  texts (string s) = s ∷ []
  texts (object fs) = field_texts fs
  texts (array vs) = values_texts vs
  texts null = []
  texts (bool b) = []
  texts (number n) = []

  pub field_texts : Fields → List Str
  field_texts end = []
  field_texts (field k v fs) = texts v ++ field_texts fs

  pub values_texts : Values → List Str
  values_texts nil = []
  values_texts (cons v vs) = texts v ++ values_texts vs

module _ (email_mask digits_mask phone_mask : Str → Str) where
  abbrev mask : Str → Str
  mask s = redact_text email_mask digits_mask phone_mask s

  mutual
    unfolding redact_value redact_fields redact_values texts field_texts values_texts

    redacted_texts :
        (v : Value) → texts (redact_value email_mask digits_mask phone_mask v) ≡ map mask (texts v)
    redacted_texts (string s) = refl
    redacted_texts (object fs) = redacted_fields fs
    redacted_texts (array vs) = redacted_values vs
    redacted_texts null = refl
    redacted_texts (bool b) = refl
    redacted_texts (number n) = refl

    redacted_fields :
        (fs : Fields)
        → field_texts (redact_fields email_mask digits_mask phone_mask fs)
          ≡ map mask (field_texts fs)
    redacted_fields end = refl
    redacted_fields (field k v fs) =
        rw (redacted_texts v, redacted_fields fs, map-append mask (texts v) (field_texts fs))

    redacted_values :
        (vs : Values)
        → values_texts (redact_values email_mask digits_mask phone_mask vs)
          ≡ map mask (values_texts vs)
    redacted_values nil = refl
    redacted_values (cons v vs) =
        rw (redacted_texts v, redacted_values vs, map-append mask (texts v) (values_texts vs))
