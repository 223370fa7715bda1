-- ===== src/Sampling/Csv/Laws.antt =====
-- A sample has no more rows than asked for, and says so when it leaves rows out.
use migration_platform.Prelude.{
  ℕ, ◌+◌, ◌≤◌, ◌≡◌, sym, ◌∙◌, Bool, true, false, ◌++◌, List, [], ◌∷◌, length, length-append, Result,
  ok, err, arith, Bool-cases, Result-cases, inl, inr, ◌==◌,
}
use migration_platform.Text.{Str}
use migration_platform.Json.{end}
use migration_platform.Sampling.Csv.{
  SampleResult, Kept, add_cells, row_of, nothing_read, read_rows, detect_delimiter, sample,
}

abbrev Fits : ℕ → Kept → List (Result Str (List Str)) → Kept → Type 0
Fits row_cap k records r =
    (length r.rows ≤ row_cap)
    × (r.truncated ≡ false → length r.rows ≡ length k.rows + length records)

read_rows-Fits :
    (row_cap : ℕ) (truncated_input : Bool) (k : Kept) (records : List (Result Str (List Str)))
    (r : Kept)
    → length k.rows ≤ row_cap
    → read_rows row_cap truncated_input k records ≡ ok r
    → Fits row_cap k records r
unfolding read_rows
read_rows-Fits row_cap t k [] r h e =
    let same : k ≡ r = ground arith in rw (← same) (h, λ z. omega arith)
read_rows-Fits row_cap t k (err why ∷ rest) r h e =
    let stopped : record k { truncated = true } ≡ r = ground arith in rw (← stopped) (h, λ z. cc z)
read_rows-Fits row_cap t k (ok cells ∷ rest) r h e = elim (Bool-cases (length k.rows == row_cap)) [
  | inl full ↦
      let stopped : record k { truncated = true } ≡ r = ground arith in
      rw (← stopped) (h, λ z. cc z)
  | inr room ↦
      let next : Kept = record k {
        columns = add_cells k.columns cells;
        rows = k.rows ++ (row_of k.columns cells end ∷ []);
      } in
      let grown = length-append k.rows (row_of k.columns cells end ∷ []) in
      let fits = read_rows-Fits row_cap t next rest r (ground (arith, grown)) (ground arith) in
      (fits.0, λ z. omega (arith, fits.1 z, grown))
]

module _ (header_of : ℕ → List ℕ → Result Str (List Str))
    (records_of : ℕ → List ℕ → List (Result Str (List Str)))
    (is_f64 is_rfc3339 is_date : Str → Bool) where
  -- A sample counts its rows, and has no more of them than the cap. If it is not marked as truncated,
  -- then it has a row for every record of the file.
  pub sample_complete :
      (bytes : List ℕ) (row_cap : ℕ) (truncated_input : Bool) (r : SampleResult)
      → sample header_of records_of is_f64 is_rfc3339 is_date bytes row_cap truncated_input ≡ ok r
      → (r.row_count ≡ length r.rows)
        × (r.row_count ≤ row_cap)
        × (r.truncated ≡ false → r.row_count ≡ length (records_of (detect_delimiter bytes) bytes))
  unfolding sample
  sample_complete [] row_cap t r h = absurd (ground arith)
  sample_complete (b ∷ bytes) row_cap t r h =
      let d = detect_delimiter (b ∷ bytes) in
      let records = records_of d (b ∷ bytes) in
      elim (Result-cases (header_of d (b ∷ bytes))) [
        | inr (why, e) ↦ absurd (ground arith)
        | inl ([], e) ↦ absurd (ground arith)
        | inl (header ∷ headers, e) ↦
            let start = nothing_read t (header ∷ headers) in
            elim (Result-cases (read_rows row_cap t start records)) [
              | inr (why, failed) ↦ absurd (ground arith)
              | inl (kept, read) ↦
                  let fits = read_rows-Fits row_cap t start records kept (omega arith) read in
                  let rows : r.rows ≡ kept.rows = ground arith in
                  let count : r.row_count ≡ length kept.rows = ground arith in
                  let mark : r.truncated ≡ kept.truncated = ground arith in
                  (rw rows count, rw count fits.0, λ z. omega (arith, count, fits.1 (sym mark ∙ z)))
            ]
      ]
