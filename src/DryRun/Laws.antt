-- ===== src/DryRun/Laws.antt =====
-- apps/api/src/routes/dry_run.rs: a mapping without special keys is sent as it stands.
use migration_platform.Prelude.{◌≡◌, refl, ap, Bool, none}
use migration_platform.Text.{Str}
use migration_platform.Json.{
  Value, null, bool, string, array, object, Values, nil, cons, Fields, end, field,
}
use migration_platform.DryRun.{special, resolve, resolve_fields, resolve_values}

-- No object in the value has one of the special keys.
mutual
  pub data IsPlain : Value → Type 0 where
    plain_null : IsPlain null
    plain_bool : (b : Bool) → IsPlain (bool b)
    plain_string : (s : Str) → IsPlain (string s)
    plain_array : {vs : Values} → ArePlain vs → IsPlain (array vs)
    plain_object :
        {fs : Fields} → ((row : Value) → special fs row ≡ none) → HasPlain fs → IsPlain (object fs)

  pub data ArePlain : Values → Type 0 where
    no_values : ArePlain nil
    one_value : {v : Value} {vs : Values} → IsPlain v → ArePlain vs → ArePlain (cons v vs)

  pub data HasPlain : Fields → Type 0 where
    no_fields : HasPlain end
    one_field :
        {k : Str} {v : Value} {fs : Fields} → IsPlain v → HasPlain fs → HasPlain (field k v fs)

mutual
  unfolding resolve resolve_fields resolve_values

  resolve-IsPlain : {v : Value} → IsPlain v → (row : Value) → resolve v row ≡ v
  resolve-IsPlain plain_null row = refl
  resolve-IsPlain (plain_bool b) row = refl
  resolve-IsPlain (plain_string s) row = refl
  resolve-IsPlain (plain_array ps) row = ap array (resolve_values-ArePlain ps row)
  resolve-IsPlain (plain_object h ps) row =
      rw (resolve, h row) (ap object (resolve_fields-HasPlain ps row))

  resolve_values-ArePlain : {vs : Values} → ArePlain vs → (row : Value) → resolve_values vs row ≡ vs
  resolve_values-ArePlain no_values row = refl
  resolve_values-ArePlain (one_value p ps) row =
      cc (resolve-IsPlain p row, resolve_values-ArePlain ps row)

  resolve_fields-HasPlain : {fs : Fields} → HasPlain fs → (row : Value) → resolve_fields fs row ≡ fs
  resolve_fields-HasPlain no_fields row = refl
  resolve_fields-HasPlain (one_field p ps) row =
      cc (resolve-IsPlain p row, resolve_fields-HasPlain ps row)
