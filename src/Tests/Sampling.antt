-- ===== src/Tests/Sampling.antt =====
-- Samples at concrete inputs, with toys of the parsers: the first line is the header, and there are two
-- records.
use migration_platform.Int.{parse_i64}
use migration_platform.Sampling.Infer.{conclude, has_type_left, note}
use migration_platform.Text.{str_eq, to_ascii_lowercase, trim}
use migration_platform.Sampling.Csv.{read_rows}
use migration_platform.Prelude.{ℕ, ◌≡◌, ◌≤◌, refl, Bool, false, List, [], ◌∷◌, length, Result, ok}
use migration_platform.Text.{Str, lit}
use migration_platform.Json.{string, Fields, end, field}
use migration_platform.Sampling.Infer.{infer_column_type}
use migration_platform.Sampling.Infer.Laws.{common_type, solid, infer_column_type-common_type}
use migration_platform.Sampling.Csv.{detect_delimiter, SampleResult, sample}
use migration_platform.Sampling.Csv.Laws.{sample_complete}

abbrev never : Str → Bool
never s = false

abbrev column : List Str
column = lit "1" ∷ lit " " ∷ lit "-2" ∷ []

abbrev file : List ℕ
file = lit "id;name\n1;Ada\n2;Bob\n"

abbrev header_of : ℕ → List ℕ → Result Str (List Str)
header_of d bytes = ok (lit "id" ∷ lit "name" ∷ [])

abbrev records_of : ℕ → List ℕ → List (Result Str (List Str))
records_of d bytes = ok (lit "1" ∷ lit "Ada" ∷ []) ∷ ok (lit "2" ∷ lit "Bob" ∷ []) ∷ []

infer_column_type-common_type_example :
    infer_column_type never never never column ≡ common_type never never never (solid column)
infer_column_type-common_type_example = infer_column_type-common_type never never never column

abbrev row_for : Str → Str → Fields
row_for id name = field (lit "id") (string id) (field (lit "name") (string name) end)

abbrev sampled : SampleResult
sampled = record {
  format = lit "csv";
  columns =
      record { name = lit "id"; column_type = lit "integer"; nullable = false }
      ∷ record { name = lit "name"; column_type = lit "string"; nullable = false }
      ∷ [];
  rows = row_for (lit "1") (lit "Ada") ∷ row_for (lit "2") (lit "Bob") ∷ [];
  row_count = 2;
  truncated = false;
  bytes_read = 20;
}

sample_complete_example :
    (sampled.row_count ≡ length sampled.rows)
    × (sampled.row_count ≤ 5)
    × (sampled.truncated ≡ false
        → sampled.row_count ≡ length (records_of (detect_delimiter file) file))
unfolding sample read_rows infer_column_type str_eq trim has_type_left note to_ascii_lowercase
    parse_i64 conclude
sample_complete_example =
    sample_complete header_of records_of never never never file 5 false sampled refl
