-- ===== src/Json.antt =====
-- serde_json's `Value`, as far as the API reads it. An object is the list of its fields (serde_json
-- keeps them in a map, so that each key stands once); a float is kept as its bit pattern.
use migration_platform.Prelude.{ℕ, ◌^◌, Bool, Option, none, some, ltb, if◌then◌else◌}
use migration_platform.Text.{Str, str_eq}
use migration_platform.Int.{ℤ, pos, negsuc}

-- serde_json's `Number`: a u64, a negative i64 -(n + 1), or a float.
pub data Number : Type 0 where
  pos_int : ℕ → Number
  neg_int : ℕ → Number
  float : ℕ → Number

mutual
  pub data Value : Type 0 where
    null : Value
    bool : Bool → Value
    number : Number → Value
    string : Str → Value
    array : Values → Value
    object : Fields → Value

  pub data Values : Type 0 where
    nil : Values
    cons : Value → Values → Values

  pub data Fields : Type 0 where
    end : Fields
    field : Str → Value → Fields → Fields

-- `Map::get`
unfoldable pub get_field : Str → Fields → Option Value
get_field k end = none
get_field k (field j v fs) = let rest = get_field k fs in if str_eq j k then some v else rest

-- `Value::get` with a string index
unfoldable pub get : Str → Value → Option Value
unfolding get_field
get k (object fs) = get_field k fs
get k null = none
get k (bool b) = none
get k (number n) = none
get k (string s) = none
get k (array vs) = none

unfoldable pub as_object : Value → Option Fields
as_object (object fs) = some fs
as_object null = none
as_object (bool b) = none
as_object (number n) = none
as_object (string s) = none
as_object (array vs) = none

unfoldable pub as_str : Value → Option Str
as_str (string s) = some s
as_str null = none
as_str (bool b) = none
as_str (number n) = none
as_str (array vs) = none
as_str (object fs) = none

-- `as_i64`: a u64 above i64::MAX and a float give nothing.
unfoldable pub as_i64 : Value → Option ℤ
as_i64 (number (pos_int n)) = if ltb n (2 ^ 63) then some (pos n) else none
as_i64 (number (neg_int n)) = some (negsuc n)
as_i64 (number (float b)) = none
as_i64 null = none
as_i64 (bool b) = none
as_i64 (string s) = none
as_i64 (array vs) = none
as_i64 (object fs) = none
