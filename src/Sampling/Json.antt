-- ===== src/Sampling/Json.antt =====
-- apps/api/src/sampling/json.rs: a sample of a JSON array or of a file with one object to a line. The
-- parsers and printers of serde_json and the UTF-8 decoder are arguments.
pub mod Scan
pub mod Grammar
pub mod Complete
pub mod Laws
use migration_platform.Prelude.{
  ℕ, ◌+◌, ◌++◌, ◌≡◌, refl, Bool, true, false, ◌&&◌, ◌||◌, Option, none, some, is_empty, List, [],
  ◌∷◌, take, length, Result, ok, err, ◌>>=◌, ◌==◌, ltb, leb, if◌then◌else◌,
}
use migration_platform.Text.{Str, lit, str_eq, trim, split}
use migration_platform.Json.{
  Value, Number, null, bool, number, string, array, object, Fields, end, field,
}
use migration_platform.Sampling.Csv.{SampleColumn, SampleResult, SampleError, invalid, empty_input}
use migration_platform.Sampling.Union.{columns_of}
use migration_platform.Sampling.Json.Scan.{best_effort_array}

unfoldable pub type_of : Value → Str
type_of null = lit "null"
type_of (bool b) = lit "bool"
type_of (number n) = lit "number"
type_of (string s) = lit "string"
type_of (array vs) = lit "array"
type_of (object fs) = lit "object"

unfoldable pub strip_bom : List ℕ → List ℕ
strip_bom (a ∷ b ∷ c ∷ bytes) =
    if (a == 0xef) && ((b == 0xbb) && (c == 0xbf)) then bytes else a ∷ b ∷ c ∷ bytes
strip_bom (a ∷ b ∷ []) = a ∷ b ∷ []
strip_bom (a ∷ []) = a ∷ []
strip_bom [] = []

-- `u8::is_ascii_whitespace`
unfoldable pub is_ascii_whitespace : ℕ → Bool
is_ascii_whitespace b = (b == 9) || ((b == 10) || ((b == 12) || ((b == 13) || (b == 32))))

-- `find(|b| !b.is_ascii_whitespace()).copied().unwrap_or(0)`
unfoldable pub first_non_ws : List ℕ → ℕ
unfolding is_ascii_whitespace
first_non_ws [] = 0
first_non_ws (b ∷ bytes) =
    let rest = first_non_ws bytes in if is_ascii_whitespace b then rest else b

-- The objects among the records, or the error at the first that is none.
unfoldable pub rows_of : List Value → Result SampleError (List Fields)
unfolding type_of
rows_of [] = ok []
rows_of (v ∷ vs) = elim v [
  | object obj ↦ rows_of vs >>= λ rows. ok (obj ∷ rows)
  | other ↦ err (invalid (lit "json") (lit "expected object record, got " ++ type_of other))
]

-- What is pushed for a value that is neither missing nor null.
unfoldable pub json_text : (number_text : Number → Str) (value_text : Value → Str) → Value → Str
json_text number_text value_text (string s) = s
json_text number_text value_text (bool b) = if b then lit "true" else lit "false"
json_text number_text value_text (number n) = number_text n
json_text number_text value_text null = value_text null
json_text number_text value_text (array vs) = value_text (array vs)
json_text number_text value_text (object fs) = value_text (object fs)

module _ (number_text : Number → Str) (value_text : Value → Str)
    (is_f64 is_rfc3339 is_date : Str → Bool) where
  -- What is made of the records that were read.
  unfoldable pub sample_records : ℕ → ℕ → Bool → List Value → Result SampleError SampleResult
  unfolding rows_of json_text columns_of
  sample_records bytes_read row_cap truncated_input records =
      if is_empty records then err (invalid (lit "json") (lit "no records")) else do
        let take_n = if ltb row_cap (length records) then row_cap else length records
        rows ← rows_of (take take_n records)
        ok (record {
          format = lit "json";
          columns = columns_of (json_text number_text value_text) is_f64 is_rfc3339 is_date rows;
          rows = rows;
          row_count = length rows;
          truncated = if ltb row_cap (length records) then true else truncated_input;
          bytes_read = bytes_read;
        })

module _ (from_slice : List ℕ → Result Str (List Value)) (from_str : Str → Result Str Value)
    (from_utf8 : List ℕ → Option Str) where
  unfoldable pub parse_array : List ℕ → Bool → Result SampleError (List Value)
  unfolding best_effort_array
  parse_array bytes truncated_input = elim (from_slice bytes) [
    | ok v ↦ ok v
    | err e ↦
        if truncated_input
        then best_effort_array from_str from_utf8 bytes
        else err (invalid (lit "json") e)
  ]

  -- What one line adds: nothing if it is blank, not UTF-8, or does not parse.
  unfoldable pub parse_line : List ℕ → List Value
  parse_line line = elim (from_utf8 line) [
    | none ↦ []
    | some text ↦
        if is_empty (trim text)
        then []
        else elim (from_str (trim text)) [ ok v ↦ v ∷ [] | err e ↦ [] ]
  ]

  unfoldable pub parse_lines : List (List ℕ) → List Value
  unfolding parse_line
  parse_lines [] = []
  parse_lines (line ∷ rest) = parse_line line ++ parse_lines rest

  unfoldable pub parse_ndjson : List ℕ → Bool → Result SampleError (List Value)
  unfolding parse_lines split
  parse_ndjson bytes truncated_input = ok (parse_lines (split b'\n' bytes))

  unfoldable pub records_of : List ℕ → Bool → Result SampleError (List Value)
  unfolding parse_array parse_ndjson strip_bom first_non_ws
  records_of bytes truncated_input =
      let trimmed = strip_bom bytes in
      if first_non_ws trimmed == b'['
      then parse_array trimmed truncated_input
      else parse_ndjson trimmed truncated_input

  module _ (number_text : Number → Str) (value_text : Value → Str)
      (is_f64 is_rfc3339 is_date : Str → Bool) where
    unfoldable pub sample : List ℕ → ℕ → Bool → Result SampleError SampleResult
    unfolding records_of sample_records
    sample bytes row_cap truncated_input =
        if is_empty bytes
        then err empty_input
        else records_of bytes truncated_input
          >>= sample_records number_text value_text is_f64 is_rfc3339 is_date (length bytes) row_cap
              truncated_input
