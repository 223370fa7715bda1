-- ===== src/Sampling/Infer.antt =====
-- apps/api/src/sampling/type_infer.rs: the type of a column. The standard library's parser of floats
-- and chrono's parsers of dates are arguments.
pub mod Laws
use migration_platform.Prelude.{
  Bool, true, false, not, ◌&&◌, ◌||◌, is_some, is_empty, List, [], ◌∷◌, any, if◌then◌else◌,
}
use migration_platform.Text.{Str, lit, str_eq, trim, to_ascii_lowercase}
use migration_platform.Int.{parse_i64}

unfoldable pub is_bool : Str → Bool
is_bool v =
    any (λ t. str_eq t (to_ascii_lowercase v)) (lit "true" ∷ lit "false" ∷ lit "0" ∷ lit "1" ∷ [])

-- The flags of the loop.
pub record Flags : Type 0 where
  pub all_bool : Bool
  pub all_int : Bool
  pub all_num : Bool
  pub all_dt : Bool
  pub had_any : Bool

-- The tests behind the loop.
unfoldable pub conclude : Flags → Str
conclude f =
    if not f.had_any
    then lit "string"
    else if f.all_bool
    then lit "boolean"
    else if f.all_int
    then lit "integer"
    else if f.all_num
    then lit "number"
    else if f.all_dt
    then lit "datetime"
    else lit "string"

unfoldable pub is_datetime : (is_rfc3339 is_date : Str → Bool) → Str → Bool
is_datetime is_rfc3339 is_date v = if is_rfc3339 v then true else is_date v

-- Whether some type is still possible.
unfoldable pub has_type_left : Flags → Bool
has_type_left f = f.all_bool || (f.all_int || (f.all_num || f.all_dt))

module _ (is_f64 is_rfc3339 is_date : Str → Bool) where
  -- What one value that is not blank leaves of the flags.
  unfoldable pub note : Str → Flags → Flags
  unfolding is_bool is_datetime
  note v f = record {
    all_bool = if f.all_bool && not (is_bool v) then false else f.all_bool;
    all_int = if f.all_int && not (is_some (parse_i64 v)) then false else f.all_int;
    all_num = if f.all_num && not (is_f64 v) then false else f.all_num;
    all_dt = if f.all_dt && not (is_datetime is_rfc3339 is_date v) then false else f.all_dt;
    had_any = true;
  }

  -- The loop, which returns as soon as no type is left.
  unfoldable pub infer_from : Flags → List Str → Str
  infer_from f [] = conclude f
  infer_from f (raw ∷ rest) =
      let v = trim raw in
      let blank = infer_from f rest in
      let g = note v f in
      let later = infer_from g rest in
      if is_empty v then blank else if not (has_type_left g) then lit "string" else later

  unfoldable pub infer_column_type : List Str → Str
  unfolding infer_from
  infer_column_type values =
      infer_from
        (record { all_bool = true; all_int = true; all_num = true; all_dt = true; had_any = false })
        values
