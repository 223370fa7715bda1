-- ===== src/Templates/Refs.antt =====
-- apps/api/src/routes/templates.rs: the references to earlier responses in a JSON value.
pub mod Laws
use migration_platform.Prelude.{Option, none, some, List, [], ◌∷◌, ◌++◌}
use migration_platform.Text.{Str, lit}
use migration_platform.Json.{
  Value, null, bool, number, string, array, object, Values, nil, cons, Fields, end, field,
  get_field,
}

abbrev pub from_response : Str
from_response = lit "$fromResponse"

abbrev pub only_text : Option Value → List Str
only_text none = []
only_text (some null) = []
only_text (some (bool b)) = []
only_text (some (number n)) = []
only_text (some (string s)) = s ∷ []
only_text (some (array vs)) = []
only_text (some (object fs)) = []

-- What an object itself refers to: `if let Some(Value::String(step)) = map.get("$fromResponse")`.
unfoldable pub own_ref : Fields → List Str
own_ref fs = only_text (get_field from_response fs)

-- `collect_response_refs`: what the call pushes, in order.
unfoldable mutual
  unfolding own_ref

  pub collect_response_refs : Value → List Str
  collect_response_refs null = []
  collect_response_refs (bool b) = []
  collect_response_refs (number n) = []
  collect_response_refs (string s) = []
  collect_response_refs (array vs) = collect_items vs
  collect_response_refs (object fs) = own_ref fs ++ collect_fields fs

  pub collect_items : Values → List Str
  collect_items nil = []
  collect_items (cons v vs) = collect_response_refs v ++ collect_items vs

  pub collect_fields : Fields → List Str
  collect_fields end = []
  collect_fields (field k v fs) = collect_response_refs v ++ collect_fields fs
