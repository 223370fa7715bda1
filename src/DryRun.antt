-- ===== src/DryRun.antt =====
-- apps/api/src/routes/dry_run.rs: the payloads that a template would send for sample rows.
pub mod Laws
use migration_platform.Prelude.{◌++◌, Option, none, some, List, [], ◌∷◌, map, take}
use migration_platform.Text.{Str, lit}
use migration_platform.Json.{
  Value, null, bool, number, string, array, object, Values, nil, cons, Fields, end, field, get,
  get_field, as_str, as_object,
}

abbrev pub text_at : Str → Fields → Option Str
text_at k fs = elim (get_field k fs) [ none ↦ none | some v ↦ as_str v ]

abbrev pub or_value : Option Value → Value → Value
or_value none d = d
or_value (some v) d = v

abbrev pub or_text : Option Str → Str → Str
or_text none d = d
or_text (some s) d = s

-- What stands for an object with `$from`, `$py`, `$fromResponse` or `$literal`, tried in this order.
unfoldable pub special : Fields → Value → Option Value
unfolding get_field get as_str
special obj row = elim (text_at (lit "$from") obj) [
  | some name ↦ some (or_value (get name row) null)
  | none ↦ elim (text_at (lit "$py") obj) [
    | some expr ↦ some (string (lit "<py: " ++ (expr ++ lit ">")))
    | none ↦ elim (text_at (lit "$fromResponse") obj) [
      | some name ↦ some (
          string (
            lit "<response of "
            ++ (name ++ (lit ": " ++ (or_text (text_at (lit "path") obj) (lit "$") ++ lit ">")))))
      | none ↦ get_field (lit "$literal") obj
    ]
  ]
]

unfoldable mutual
  unfolding special

  pub resolve : Value → Value → Value
  resolve (object obj) row = or_value (special obj row) (object (resolve_fields obj row))
  resolve (array vs) row = array (resolve_values vs row)
  resolve null row = null
  resolve (bool b) row = bool b
  resolve (number n) row = number n
  resolve (string s) row = string s

  pub resolve_fields : Fields → Value → Fields
  resolve_fields end row = end
  resolve_fields (field k v fs) row = field k (resolve v row) (resolve_fields fs row)

  pub resolve_values : Values → Value → Values
  resolve_values nil row = nil
  resolve_values (cons v vs) row = cons (resolve v row) (resolve_values vs row)

unfoldable pub render : Fields → Value → Value
unfolding resolve
render mapping row = object (resolve_fields mapping row)

abbrev and_then : Option Value → (Value → Option Value) → Option Value
and_then none f = none
and_then (some v) f = f v

abbrev fields_or_none : Option Value → Fields
fields_or_none none = end
fields_or_none (some v) = elim (as_object v) [ none ↦ end | some fs ↦ fs ]

-- The payload mapping of a step, and of a template without steps.
unfoldable pub mapping_of : Value → Fields
unfolding get as_object
mapping_of s = fields_or_none (and_then (get (lit "mapping") s) (get (lit "payload")))

abbrev name_of : Value → Str
name_of s = or_text (elim (get (lit "name") s) [ none ↦ none | some v ↦ as_str v ]) (lit "step")

unfoldable pub steps_of : Values → List (Str × Fields)
unfolding mapping_of get as_str
steps_of nil = []
steps_of (cons s ss) = (name_of s, mapping_of s) ∷ steps_of ss

abbrev elements : Option Value → Option Values
elements none = none
elements (some (array vs)) = some vs
elements (some null) = none
elements (some (bool b)) = none
elements (some (number n)) = none
elements (some (string s)) = none
elements (some (object fs)) = none

unfoldable pub extract_steps : Value → List (Str × Fields)
unfolding steps_of mapping_of get
extract_steps template = elim (elements (get (lit "steps") template)) [
  | some ss ↦ steps_of ss
  | none ↦ (lit "main", mapping_of template) ∷ []
]

abbrev step_value : Str × Fields → Value → Value
step_value (name, mapping) row =
    object (field (lit "step") (string name) (field (lit "payload") (render mapping row) end))

unfoldable pub per_step : List (Str × Fields) → Value → Values
unfolding render
per_step [] row = nil
per_step (s ∷ ss) row = cons (step_value s row) (per_step ss row)

-- A single step keeps the flat shape.
unfoldable pub preview : List (Str × Fields) → Value → Value
unfolding per_step render
preview (s ∷ []) row = render s.1 row
preview [] row = object (field (lit "steps") (array nil) end)
preview (s ∷ t ∷ ss) row = object (field (lit "steps") (array (per_step (s ∷ t ∷ ss) row)) end)

unfoldable pub dry_run : Value → List Value → List Value
unfolding extract_steps preview
dry_run template rows = map (preview (extract_steps template)) (take 20 rows)
