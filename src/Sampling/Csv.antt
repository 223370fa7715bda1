-- ===== src/Sampling/Csv.antt =====
-- apps/api/src/sampling/csv.rs and mod.rs: a sample of a CSV file. The reader of the `csv` crate is an
-- argument: the header, and the records behind it, each with its cells or an error.
pub mod Delimiter
pub mod Laws
use migration_platform.Prelude.{
  ℕ, ◌+◌, ◌++◌, Bool, true, false, ◌&&◌, Option, none, some, is_empty, List, [], ◌∷◌, map, length,
  Result, ok, err, ◌==◌, ltb, if◌then◌else◌,
}
use migration_platform.Text.{Str, lit, str_eq, decimal}
use migration_platform.Json.{Value, null, string, Fields, end, field}
use migration_platform.Sampling.Infer.{infer_column_type}

pub record SampleColumn : Type 0 where
  pub name : Str
  pub column_type : Str
  pub nullable : Bool

pub record SampleResult : Type 0 where
  pub format : Str
  pub columns : List SampleColumn
  pub rows : List Fields
  pub row_count : ℕ
  pub truncated : Bool
  pub bytes_read : ℕ

pub data SampleError : Type 0 where
  empty_input : SampleError
  invalid : Str → Str → SampleError
  unsupported : Str → SampleError

-- `bytes.split(|b| *b == b'\n').find(|line| !line.is_empty())`, with the part of the line before.
abbrev first_line_from : List ℕ → List ℕ → List ℕ
first_line_from line [] = line
first_line_from line (b ∷ bytes) =
    let fresh = first_line_from [] bytes in
    let on = first_line_from (line ++ (b ∷ [])) bytes in
    if b == b'\n' then (if is_empty line then fresh else line) else on

unfoldable pub first_line : List ℕ → List ℕ
first_line bytes = first_line_from [] bytes

unfoldable pub count_of : ℕ → List ℕ → ℕ
count_of c [] = 0
count_of c (b ∷ bytes) = let n = count_of c bytes in if b == c then n + 1 else n

-- The loop over the candidates. The best count is -1 at first, so that it is kept with one added.
unfoldable pub best_of : List ℕ → ℕ × ℕ → List ℕ → ℕ
unfolding count_of
best_of [] best line = best.0
best_of (c ∷ cs) best line =
    let found = best_of cs (c, count_of c line + 1) line in
    let kept = best_of cs best line in if ltb best.1 (count_of c line + 1) then found else kept

abbrev pub candidates : List ℕ
candidates = b',' ∷ b';' ∷ b'\t' ∷ b'|' ∷ []

unfoldable pub detect_delimiter : List ℕ → ℕ
unfolding first_line best_of
detect_delimiter bytes = best_of candidates (b',', 0) (first_line bytes)

-- `Map::insert`
unfoldable pub insert_field : Str → Value → Fields → Fields
insert_field k v end = field k v end
insert_field k v (field j w fs) =
    let rest = insert_field k v fs in if str_eq j k then field j v fs else field j w rest

-- What the rows so far have left of a column: its values, and whether one was empty.
pub record Column : Type 0 where
  pub header : Str
  pub raw : List Str
  pub nullable : Bool

abbrev cell_of : List Str → Str
cell_of [] = []
cell_of (cell ∷ cells) = cell

abbrev cells_behind : List Str → List Str
cells_behind [] = []
cells_behind (cell ∷ cells) = cells

abbrev cell_value : Str → Value
cell_value [] = null
cell_value (c ∷ s) = string (c ∷ s)

-- The loop over the headers: the columns with one more cell each, and the row.
unfoldable pub add_cells : List Column → List Str → List Column
add_cells [] record_ = []
add_cells (col ∷ cols) record_ =
    let cell = cell_of record_ in
    record col {
      raw = col.raw ++ (cell ∷ []);
      nullable = if is_empty cell then true else col.nullable;
    }
    ∷ add_cells cols (cells_behind record_)

unfoldable pub row_of : List Column → List Str → Fields → Fields
unfolding insert_field
row_of [] record_ obj = obj
row_of (col ∷ cols) record_ obj =
    row_of cols (cells_behind record_) (insert_field col.header (cell_value (cell_of record_)) obj)

-- The rows and columns that are kept, and whether the sample is short of the file.
pub record Kept : Type 0 where
  pub columns : List Column
  pub rows : List Fields
  pub truncated : Bool

abbrev pub fresh_column : Str → Column
fresh_column h = record { header = h; raw = []; nullable = false }

-- What the loop over the records begins with.
abbrev pub nothing_read : Bool → List Str → Kept
nothing_read truncated_input headers = record {
  columns = map fresh_column headers;
  rows = [];
  truncated = truncated_input;
}

module _ (row_cap : ℕ) (truncated_input : Bool) where
  -- The loop over the records, of which one more than the cap is read.
  unfoldable pub read_rows : Kept → List (Result Str (List Str)) → Result SampleError Kept
  unfolding add_cells row_of
  read_rows k [] = ok k
  read_rows k (err e ∷ rest) =
      if length k.rows == row_cap
      then ok (record k { truncated = true })
      else if truncated_input
      then ok (record k { truncated = true })
      else err
          (invalid (lit "csv") (lit "row " ++ (decimal (length k.rows + 1) ++ (lit ": " ++ e))))
  read_rows k (ok cells ∷ rest) =
      let more =
        read_rows
          (record k {
            columns = add_cells k.columns cells;
            rows = k.rows ++ (row_of k.columns cells end ∷ []);
          })
          rest in
      if length k.rows == row_cap then ok (record k { truncated = true }) else more

module _ (header_of : ℕ → List ℕ → Result Str (List Str))
    (records_of : ℕ → List ℕ → List (Result Str (List Str)))
    (is_f64 is_rfc3339 is_date : Str → Bool) where
  abbrev described : Column → SampleColumn
  described col = record {
    name = col.header;
    column_type = infer_column_type is_f64 is_rfc3339 is_date col.raw;
    nullable = col.nullable;
  }

  abbrev sampled : ℕ → Result SampleError Kept → Result SampleError SampleResult
  sampled bytes_read (err e) = err e
  sampled bytes_read (ok k) = ok (record {
    format = lit "csv";
    columns = map described k.columns;
    rows = k.rows;
    row_count = length k.rows;
    truncated = k.truncated;
    bytes_read = bytes_read;
  })

  abbrev with_header :
      ℕ
      → Bool
      → List ℕ
      → List (Result Str (List Str))
      → Result Str (List Str)
      → Result SampleError SampleResult
  with_header row_cap truncated_input bytes records (err e) =
      err (invalid (lit "csv") (lit "reading header: " ++ e))
  with_header row_cap truncated_input bytes records (ok []) =
      err (invalid (lit "csv") (lit "no header row"))
  with_header row_cap truncated_input bytes records (ok (h ∷ hs)) = sampled (length bytes) (
      read_rows row_cap truncated_input
        (record { columns = map fresh_column (h ∷ hs); rows = []; truncated = truncated_input })
        records)

  unfoldable pub sample : List ℕ → ℕ → Bool → Result SampleError SampleResult
  sample bytes row_cap truncated_input =
      if is_empty bytes
      then err empty_input
      else with_header row_cap truncated_input bytes (records_of (detect_delimiter bytes) bytes)
          (header_of (detect_delimiter bytes) bytes)
