-- ===== src/Sampling/Union.antt =====
-- apps/api/src/sampling/json.rs and xml.rs: the columns of rows that need not have the same keys. The
-- set `seen` of the source has the keys of `key_order`, since both grow together. The text of a value
-- that is there and not null is an argument, as the two samplers differ in it.
pub mod Laws
use migration_platform.Prelude.{
  ℕ, Bool, true, false, Option, none, some, List, [], ◌∷◌, ◌++◌, map, any, if◌then◌else◌,
}
use migration_platform.Text.{Str, str_eq}
use migration_platform.Json.{
  Value, null, bool, number, string, array, object, Fields, end, field, get_field,
}
use migration_platform.Sampling.Infer.{infer_column_type}
use migration_platform.Sampling.Csv.{Column, fresh_column, SampleColumn}

-- `Map::keys`
unfoldable pub keys : Fields → List Str
keys end = []
keys (field k v fs) = k ∷ keys fs

abbrev pub has_name : Str → List Str → Bool
has_name k names = any (str_eq k) names

-- The loop over the keys of one row.
unfoldable pub add_keys : List Str → List Str → List Str
add_keys key_order [] = key_order
add_keys key_order (k ∷ ks) =
    let old = add_keys key_order ks in
    let new = add_keys (key_order ++ (k ∷ [])) ks in if has_name k key_order then old else new

-- The loop over the rows.
unfoldable pub key_order_from : List Str → List Fields → List Str
unfolding add_keys
key_order_from key_order [] = key_order
key_order_from key_order (row ∷ rows) = key_order_from (add_keys key_order (keys row)) rows

unfoldable pub is_null : Value → Bool
is_null null = true
is_null (bool b) = false
is_null (number n) = false
is_null (string s) = false
is_null (array vs) = false
is_null (object fs) = false

module _ (text_of : Value → Str) where
  -- What the row adds to a column: a missing value and null leave an empty text.
  unfoldable pub add_value : Option Value → Column → Column
  unfolding is_null
  add_value none col = record col { raw = col.raw ++ ([] ∷ []); nullable = true }
  add_value (some v) col =
      if is_null v
      then record col { raw = col.raw ++ ([] ∷ []); nullable = true }
      else record col { raw = col.raw ++ (text_of v ∷ []) }

  unfoldable pub add_row : Fields → List Column → List Column
  unfolding add_value
  add_row row [] = []
  add_row row (col ∷ cols) = add_value (get_field col.header row) col ∷ add_row row cols

  unfoldable pub add_rows : List Fields → List Column → List Column
  unfolding add_row
  add_rows [] cols = cols
  add_rows (row ∷ rows) cols = add_rows rows (add_row row cols)

  module _ (is_f64 is_rfc3339 is_date : Str → Bool) where
    abbrev pub described : Column → SampleColumn
    described col = record {
      name = col.header;
      column_type = infer_column_type is_f64 is_rfc3339 is_date col.raw;
      nullable = col.nullable;
    }

    unfoldable pub columns_of : List Fields → List SampleColumn
    unfolding key_order_from add_rows
    columns_of rows = map described (add_rows rows (map fresh_column (key_order_from [] rows)))
