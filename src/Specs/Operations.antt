-- ===== src/Specs/Operations.antt =====
-- apps/api/src/routes/specs.rs: the operations of an API specification. The parser of URLs is an
-- argument, and so is `Value::pointer` of serde_json. An operation is the object that `json!` makes of it,
-- by its fields.
use migration_platform.Prelude.{
  ℕ, ◌++◌, Bool, false, ◌||◌, Option, none, some, List, [], ◌∷◌, map, ◌==◌, if◌then◌else◌,
}
use migration_platform.Text.{Str, lit, decimal, starts_with, trim_end_matches}
use migration_platform.Text.Parts.{trim_matches}
use migration_platform.Json.{
  Value, null, bool, number, string, array, object, Values, nil, cons, Fields, end, field, get,
  get_field, as_str, as_object,
}
use migration_platform.Specs.Schema.{resolve_ref, resolve_schema, ref_levels, schema_levels}

-- What the source reads of a parsed URL: scheme, host and port.
pub record Origin : Type 0 where
  pub scheme : Str
  pub host : Option Str
  pub port : Option ℕ

abbrev or_text : Option Str → Str → Str
or_text none d = d
or_text (some s) d = s

abbrev and_then : Option Value → (Value → Option Value) → Option Value
and_then none f = none
and_then (some v) f = f v

abbrev text_at : Str → Value → Str → Str
text_at k v d = elim (get k v) [ none ↦ d | some w ↦ or_text (as_str w) d ]

abbrev or_null : Option Value → Value
or_null none = null
or_null (some v) = v

abbrev elements : Value → Values
elements (array vs) = vs
elements null = nil
elements (bool b) = nil
elements (number n) = nil
elements (string s) = nil
elements (object fs) = nil

abbrev first_of : Values → Option Value
first_of nil = none
first_of (cons v vs) = some v

abbrev fields_of : Option Value → Fields
fields_of none = end
fields_of (some v) = elim (as_object v) [ none ↦ end | some fs ↦ fs ]

-- The methods, with their names in upper case.
abbrev pub methods : List (Str × Str)
methods =
    (lit "get", lit "GET")
    ∷ (lit "post", lit "POST")
    ∷ (lit "put", lit "PUT")
    ∷ (lit "patch", lit "PATCH")
    ∷ (lit "delete", lit "DELETE")
    ∷ []

abbrev with_port : Str → Option ℕ → Str
with_port origin none = origin
with_port origin (some n) = origin ++ (lit ":" ++ decimal n)

unfoldable pub origin_text : Origin → Str
origin_text u = with_port (u.scheme ++ (lit "://" ++ or_text u.host [])) u.port

abbrev origin_of : (Str → Option Origin) → Option Str → Str
origin_of parse_url none = []
origin_of parse_url (some src) = elim (parse_url src) [ none ↦ [] | some u ↦ origin_text u ]

-- The origin is that of the document, if the server's own URL is relative; an empty server adds nothing.
unfoldable pub resolve_operation_url : (Str → Option Origin) → Str → Str → Option Str → Str
unfolding origin_text trim_end_matches starts_with
resolve_operation_url parse_url server_url path source_url =
    let server = trim_end_matches b'/' server_url in
    let rooted = if starts_with path (lit "/") then path else lit "/" ++ path in
    if starts_with server (lit "http://") || starts_with server (lit "https://")
    then server ++ rooted
    else origin_of parse_url source_url ++ (server ++ rooted)

pub record Parameter : Type 0 where
  pub name : Str
  pub place : Str
  pub required : Bool
  pub schema : Value

pub record Operation : Type 0 where
  pub operation_id : Str
  pub method : Str
  pub path : Str
  pub url : Str
  pub summary : Str
  pub description : Str
  pub parameters : List Parameter
  pub request_schema : Value
  pub response_schema : Value

abbrev is_true : Option Value → Bool
is_true (some (bool b)) = b
is_true none = false
is_true (some null) = false
is_true (some (number n)) = false
is_true (some (string s)) = false
is_true (some (array vs)) = false
is_true (some (object fs)) = false

-- `replace('/', "_")`
abbrev underscored : Str → Str
underscored s = map (λ c. if c == b'/' then b'_' else c) s

-- The first answer that the operation describes.
unfoldable pub success : Fields → Option Value
unfolding get_field
success rs = elim (get_field (lit "200") rs) [
  | some v ↦ some v
  | none ↦ elim (get_field (lit "201") rs) [ some v ↦ some v | none ↦ get_field (lit "202") rs ]
]

module _ (pointer : Value → Str → Option Value) (parse_url : Str → Option Origin)
    (spec : Value) where
  abbrev resolved : Value → Value
  resolved v = resolve_ref pointer spec ref_levels v

  unfoldable pub parameter : Value → Parameter
  unfolding get as_str
  parameter p = record {
    name = text_at (lit "name") (resolved p) [];
    place = text_at (lit "in") (resolved p) (lit "query");
    required = is_true (get (lit "required") (resolved p));
    schema = resolved (or_null (get (lit "schema") (resolved p)));
  }

  unfoldable pub parameters_of : Values → List Parameter
  unfolding parameter
  parameters_of nil = []
  parameters_of (cons p ps) = parameter p ∷ parameters_of ps

  -- The schema of the JSON body of a request or an answer.
  unfoldable pub json_schema : Option Value → Value
  unfolding get
  json_schema none = null
  json_schema (some v) =
      elim (and_then (and_then (get (lit "content") (resolved v)) (get (lit "application/json")))
        (get (lit "schema"))) [ none ↦ null | some s ↦ resolve_schema pointer spec schema_levels s ]

  module _ (base_url : Str) (source_url : Option Str) where
    unfoldable pub operation : Str → Value → Str × Str → Value → Operation
    unfolding parameters_of json_schema success trim_matches resolve_operation_url get as_str
        as_object
    operation path shared_params (method, upper) op = record {
      operation_id =
          text_at (lit "operationId") op
            (method ++ (lit "_" ++ underscored (trim_matches b'/' path)));
      method = upper;
      path = path;
      url = resolve_operation_url parse_url base_url path source_url;
      summary = text_at (lit "summary") op [];
      description = text_at (lit "description") op [];
      parameters =
          parameters_of (elements shared_params)
          ++ parameters_of (elements (or_null (get (lit "parameters") op)));
      request_schema = json_schema (get (lit "requestBody") op);
      response_schema = json_schema (success (fields_of (get (lit "responses") op)));
    }

    -- The loop over the methods, and the one over the paths; an item that is no object has none.
    unfoldable pub operations_of : Str → Fields → List (Str × Str) → List Operation
    unfolding operation get_field
    operations_of path item [] = []
    operations_of path item (m ∷ ms) =
        let rest = operations_of path item ms in
        elim (get_field m.0 item) [
          | none ↦ rest
          | some op ↦ operation path (or_null (get_field (lit "parameters") item)) m op ∷ rest
        ]

    unfoldable pub path_operations : Fields → List Operation
    unfolding operations_of as_object
    path_operations end = []
    path_operations (field path item paths) =
        operations_of path (fields_of (some item)) methods ++ path_operations paths

  abbrev base_url_of : Str
  base_url_of = elim (get (lit "servers") spec) [
    | none ↦ []
    | some s ↦ elim (first_of (elements s)) [ none ↦ [] | some v ↦ text_at (lit "url") v [] ]
  ]

  unfoldable pub parse_operations : Option Str → List Operation
  unfolding path_operations get as_object
  parse_operations source_url =
      path_operations base_url_of source_url (fields_of (get (lit "paths") spec))
