-- ===== src/Sampling/Infer/Laws.antt =====
-- The type of a column, as a question on all its values.
use migration_platform.Prelude.{
  ◌≡◌, refl, sym, ap, ◌∙◌, Bool, true, false, not, ◌&&◌, ◌||◌, is_some, is_empty, List, [], ◌∷◌,
  all, arith, Bool-cases, inl, inr, if◌then◌else◌,
}
use migration_platform.Text.{Str, lit, trim}
use migration_platform.Int.{parse_i64}
use migration_platform.Sampling.Infer.{
  is_bool, Flags, conclude, has_type_left, is_datetime, note, infer_from, infer_column_type,
}

-- The values that count: trimmed, and not blank.
abbrev pub solid : List Str → List Str
solid [] = []
solid (raw ∷ rest) =
    let others = solid rest in if is_empty (trim raw) then others else trim raw ∷ others

keep-and : (a b c : Bool) → (if a && not b then false else a) && c ≡ a && (b && c)
keep-and a b c = ground arith

and-true : (a : Bool) → a ≡ a && true
and-true a = ground arith

or-false : (a : Bool) → a ≡ a || false
or-false a = ground arith

or-true : (a : Bool) → true ≡ a || true
or-true a = ground arith

-- Once no type is left, none comes back.
conclude-string : (f : Flags) → has_type_left f ≡ false → conclude f ≡ lit "string"
unfolding conclude has_type_left
conclude-string f h = ground arith

abbrev all_left : Flags
all_left = record {
  all_bool = true;
  all_int = true;
  all_num = true;
  all_dt = true;
  had_any = false;
}

module _ (is_f64 is_rfc3339 is_date : Str → Bool) where
  -- The first type in the list that every value has.
  abbrev pub common_type : List Str → Str
  common_type [] = lit "string"
  common_type (v ∷ vs) =
      if all is_bool (v ∷ vs)
      then lit "boolean"
      else if all (λ x. is_some (parse_i64 x)) (v ∷ vs)
      then lit "integer"
      else if all is_f64 (v ∷ vs)
      then lit "number"
      else if all (is_datetime is_rfc3339 is_date) (v ∷ vs)
      then lit "datetime"
      else lit "string"

  -- The flags that some values leave.
  abbrev seen : Flags → List Str → Flags
  seen f vs = record {
    all_bool = f.all_bool && all is_bool vs;
    all_int = f.all_int && all (λ x. is_some (parse_i64 x)) vs;
    all_num = f.all_num && all is_f64 vs;
    all_dt = f.all_dt && all (is_datetime is_rfc3339 is_date) vs;
    had_any = f.had_any || not (is_empty vs);
  }

  seen-nil : (f : Flags) → f ≡ seen f []
  seen-nil f = cc (
    and-true f.all_bool,
    and-true f.all_int,
    and-true f.all_num,
    and-true f.all_dt,
    or-false f.had_any,
  )

  note-seen :
      (v : Str) (f : Flags) (vs : List Str)
      → seen (note is_f64 is_rfc3339 is_date v f) vs ≡ seen f (v ∷ vs)
  unfolding note
  note-seen v f vs = cc (
    keep-and f.all_bool (is_bool v) (all is_bool vs),
    keep-and f.all_int (is_some (parse_i64 v)) (all (λ x. is_some (parse_i64 x)) vs),
    keep-and f.all_num (is_f64 v) (all is_f64 vs),
    keep-and f.all_dt (is_datetime is_rfc3339 is_date v) (all (is_datetime is_rfc3339 is_date) vs),
    or-true f.had_any,
  )

  none-left :
      (f : Flags) (vs : List Str) → has_type_left f ≡ false → has_type_left (seen f vs) ≡ false
  unfolding has_type_left
  none-left f vs h = ground arith

  infer_from-seen :
      (f : Flags) (values : List Str)
      → infer_from is_f64 is_rfc3339 is_date f values ≡ conclude (seen f (solid values))
  unfolding infer_from
  infer_from-seen f [] = ap conclude (seen-nil f)
  infer_from-seen f (raw ∷ rest) =
      let v = trim raw in
      let g = note is_f64 is_rfc3339 is_date v f in
      elim (Bool-cases (is_empty v)) [
        | inl blank ↦ rw blank (infer_from-seen f rest)
        | inr there ↦
            let later = infer_from-seen g rest ∙ ap conclude (note-seen v f (solid rest)) in
            elim (Bool-cases (has_type_left g)) [
              | inl some_left ↦ rw (there, some_left) later
              | inr none_left ↦
                  rw (there, none_left)
                    (sym (
                      conclude-string (seen f (v ∷ solid rest))
                        (rw (← note-seen v f (solid rest)) (none-left g (solid rest) none_left))))
            ]
      ]

  conclude-common_type : (vs : List Str) → conclude (seen all_left vs) ≡ common_type vs
  unfolding conclude
  conclude-common_type [] = refl
  conclude-common_type (v ∷ vs) = refl

  -- The type of a column is the first of boolean, integer, number and datetime that all its values
  -- have which are not blank, and string if there is no such value or no such type.
  pub infer_column_type-common_type :
      (values : List Str)
      → infer_column_type is_f64 is_rfc3339 is_date values ≡ common_type (solid values)
  unfolding infer_column_type
  infer_column_type-common_type values =
      infer_from-seen all_left values ∙ conclude-common_type (solid values)
