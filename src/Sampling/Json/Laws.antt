-- ===== src/Sampling/Json/Laws.antt =====
-- apps/api/src/sampling/json.rs: what a sample says of the records.
use mathlib.Core.Path.{subst}
use migration_platform.Prelude.{
  ℕ, ◌≡◌, ◌≤◌, refl, sym, ap, ◌∙◌, ◌||◌, suc, zero, Result-cases, Bool, true, Option, List, [], ◌∷◌,
  take, length, map, Result, ok, arith, >>=-eq-ok, Bool-cases, inl, inr, ltb, if◌then◌else◌,
}
use migration_platform.Text.{Str, lit}
use migration_platform.Json.{Fields, Value, Number, object}
use migration_platform.Sampling.Csv.{SampleResult}
use migration_platform.Sampling.Json.{rows_of, json_text, records_of, sample_records, sample}
use migration_platform.Sampling.Union.{columns_of}
use migration_platform.Sampling.Union.Laws.{IsUnion, columns_of-IsUnion}

-- The rows are the records, each an object.
rows_of-objects :
    (vs : List Value) {rows : List Fields} → rows_of vs ≡ ok rows → map object rows ≡ vs
unfolding rows_of
rows_of-objects [] h = ground arith
rows_of-objects (object obj ∷ vs) h =
    let (rest, e, same) = >>=-eq-ok (rows_of vs) (λ rows. ok (obj ∷ rows)) h in
    ground (arith, rows_of-objects vs e)
rows_of-objects (_ ∷ vs) h = absurd (ground arith)

take-short {ℓ} : {A : Type ℓ} (n : ℕ) (xs : List A) → length xs ≤ n → take n xs ≡ xs
take-short zero [] h = refl
take-short (suc n) [] h = refl
take-short zero (x ∷ xs) h = absurd (omega arith)
take-short (suc n) (x ∷ xs) h = cc (take-short n xs (omega arith))

length-take-le {ℓ} : {A : Type ℓ} (n : ℕ) (xs : List A) → length (take n xs) ≤ n
length-take-le zero xs = omega arith
length-take-le (suc n) [] = omega arith
length-take-le (suc n) (x ∷ xs) = omega (arith, length-take-le n xs)

length-map {ℓ κ} :
    {A : Type ℓ} {B : Type κ} (f : A → B) (xs : List A) → length (map f xs) ≡ length xs
length-map f [] = refl
length-map f (x ∷ xs) = ap suc (length-map f xs)

-- The records that are taken are the first ones, as many as the cap allows.
abbrev taken : ℕ → List Value → List Value
taken row_cap records =
    take (if ltb row_cap (length records) then row_cap else length records) records

taken-eq : (row_cap : ℕ) (records : List Value) → taken row_cap records ≡ take row_cap records
taken-eq row_cap records = elim (Bool-cases (ltb row_cap (length records))) [
  | inl over ↦ rw over
  | inr all_of ↦
      rw (all_of, take-short (length records) records (omega arith))
        (sym (take-short row_cap records (ground arith)))
]

module _ (number_text : Number → Str) (value_text : Value → Str)
    (is_f64 is_rfc3339 is_date : Str → Bool) where
  -- What a sample says of the records that it was made of.
  pub record Samples (row_cap : ℕ) (truncated_input : Bool) (records : List Value)
      (r : SampleResult) : Type 0 where
    pub first_rows : map object r.rows ≡ take row_cap records
    pub counted : r.row_count ≡ length r.rows
    pub capped : r.row_count ≤ row_cap
    pub marked : r.truncated ≡ ltb row_cap (length records) || truncated_input
    pub union :
        IsUnion (json_text number_text value_text) is_f64 is_rfc3339 is_date r.rows r.columns

  sample_records-Samples :
      (bytes_read row_cap : ℕ) (t : Bool) (records : List Value) (r : SampleResult)
      → sample_records number_text value_text is_f64 is_rfc3339 is_date bytes_read row_cap t records
        ≡ ok r
      → Samples row_cap t records r
  unfolding sample_records
  sample_records-Samples bytes_read row_cap t [] r h = absurd (ground arith)
  sample_records-Samples bytes_read row_cap t (v ∷ vs) r h =
      elim (Result-cases (rows_of (taken row_cap (v ∷ vs)))) [
        | inr (why, failed) ↦ absurd (ground arith)
        | inl (rows, e) ↦
            let made : SampleResult = record {
              format = lit "json";
              columns =
                  columns_of (json_text number_text value_text) is_f64 is_rfc3339 is_date rows;
              rows = rows;
              row_count = length rows;
              truncated = if ltb row_cap (length (v ∷ vs)) then true else t;
              bytes_read = bytes_read;
            } in
            let whole : made ≡ r = ground arith in
            let first = rows_of-objects (taken row_cap (v ∷ vs)) e ∙ taken-eq row_cap (v ∷ vs) in
            subst (Samples row_cap t (v ∷ vs)) whole (record {
              first_rows = first;
              counted = refl;
              capped =
                  omega (
                    arith,
                    length-map object rows,
                    ap length first,
                    length-take-le row_cap (v ∷ vs),
                  );
              marked = ground arith;
              union =
                  columns_of-IsUnion (json_text number_text value_text) is_f64 is_rfc3339 is_date
                    rows;
            })
      ]

  module _ (from_slice : List ℕ → Result Str (List Value)) (from_str : Str → Result Str Value)
      (from_utf8 : List ℕ → Option Str) where
    -- A sample of a JSON file has been made of the records that the parsers gave: its rows are the
    -- first of them, as many as the cap allows, and it says so when it leaves records out. It has one
    -- column for each key of any row, whose type is that of the values under the key, and which is
    -- nullable exactly if some row has null or nothing there.
    pub sample-Samples :
        (bytes : List ℕ) (row_cap : ℕ) (truncated_input : Bool) (r : SampleResult)
        → sample from_slice from_str from_utf8 number_text value_text is_f64 is_rfc3339 is_date
            bytes row_cap truncated_input
          ≡ ok r
        → (records : List Value) × (records_of from_slice from_str from_utf8 bytes truncated_input
            ≡ ok records)
          × Samples row_cap truncated_input records r
    unfolding sample
    sample-Samples [] row_cap t r h = absurd (ground arith)
    sample-Samples (b ∷ bytes) row_cap t r h =
        let (records, read, made) =
          >>=-eq-ok (records_of from_slice from_str from_utf8 (b ∷ bytes) t)
            (sample_records number_text value_text is_f64 is_rfc3339 is_date (length (b ∷ bytes))
              row_cap t)
            h in
        (records, read, sample_records-Samples (length (b ∷ bytes)) row_cap t records r made)
