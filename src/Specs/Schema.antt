-- ===== src/Specs/Schema.antt =====
-- apps/api/src/routes/specs.rs: resolving references. `Value::pointer` of serde_json is an argument. The
-- source counts the depth up to a limit; here the levels that are left are counted down.
pub mod Laws
use migration_platform.Prelude.{
  ℕ, zero, suc, ◌-◌, Bool, true, false, Option, none, some, List, [], ◌∷◌, Result, ok, err, ◌>>=◌,
  ◌>>◌, ensure, ok_or, is_some, ◌==◌,
}
use migration_platform.Text.{Str, lit, strip_prefix, starts_with}
use migration_platform.Json.{
  Value, null, bool, number, string, array, object, Values, nil, cons, Fields, end, field, get,
  as_str, as_object,
}
use migration_platform.Api.{ApiResult, validation_failed}
use migration_platform.Prelude.{◌++◌}

abbrev and_then : Option Value → (Value → Option Str) → Option Str
and_then none f = none
and_then (some a) f = f a

-- `node.get("$ref").and_then(|v| v.as_str())`
unfoldable pub ref_of : Value → Option Str
unfolding get as_str
ref_of node = and_then (get (lit "$ref") node) as_str

abbrev is_object : Option Value → Bool
is_object none = false
is_object (some v) = is_some (as_object v)

unfoldable pub validate_openapi : Value → ApiResult (Unit {0})
unfolding get as_str as_object starts_with
validate_openapi spec = do
  version ←
      ok_or (and_then (get (lit "openapi") spec) as_str)
        (validation_failed (lit "missing `openapi` version field (3.x required)"))
  ensure (starts_with version (lit "3"))
      (validation_failed (lit "unsupported OpenAPI version " ++ (version ++ lit "; 3.x required")))
  ensure (is_object (get (lit "paths") spec)) (validation_failed (lit "spec has no `paths` object"))

unfoldable pub map_fields : (Value → Value) → Fields → Fields
map_fields f end = end
map_fields f (field k v fs) = field k (f v) (map_fields f fs)

unfoldable pub map_values : (Value → Value) → Values → Values
map_values f nil = nil
map_values f (cons v vs) = cons (f v) (map_values f vs)

-- The `match` on a node without a reference.
unfoldable pub map_children : (Value → Value) → Value → Value
unfolding map_fields map_values
map_children f (object fs) = object (map_fields f fs)
map_children f (array vs) = array (map_values f vs)
map_children f null = null
map_children f (bool b) = bool b
map_children f (number n) = number n
map_children f (string s) = string s

abbrev pub truncated : Value
truncated = object (field (lit "$comment") (string (lit "truncated (max ref depth)")) end)

module _ (pointer : Value → Str → Option Value) (spec : Value) where
  unfoldable pub lookup_pointer : Str → Option Value
  unfolding strip_prefix
  lookup_pointer reference = elim (strip_prefix (lit "#") reference) [
    | none ↦ none
    | some at ↦ pointer spec at
  ]

  -- The value that a node refers to: `none` if it has no reference, or one that leads nowhere.
  unfoldable pub target_of : Value → Option Value
  target_of node = elim (ref_of node) [ none ↦ none | some r ↦ lookup_pointer r ]

  unfoldable pub resolve_ref : ℕ → Value → Value
  resolve_ref zero node = node
  resolve_ref (suc left) node = elim (target_of node) [
    | none ↦ node
    | some target ↦ resolve_ref left target
  ]

  unfoldable pub resolve_schema : ℕ → Value → Value
  resolve_schema zero node = truncated
  resolve_schema (suc left) node = elim (ref_of node) [
    | none ↦ map_children (resolve_schema left) node
    | some r ↦ elim (lookup_pointer r) [ none ↦ node | some target ↦ resolve_schema left target ]
  ]

-- The levels that are left at depth 0: depths 0 to 8 of a reference, and 0 to 6 of a schema.
abbrev pub ref_levels : ℕ
ref_levels = 9

abbrev pub schema_levels : ℕ
schema_levels = 7
