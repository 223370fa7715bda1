-- ===== src/Tests/Samplers.antt =====
-- JSON and XML samples at concrete inputs, with toys of the parsers: the parser of an object reads its
-- length, and the reader of XML has two records, each with one element.
use migration_platform.Text.Parts.{last_part}
use migration_platform.Int.{parse_i64}
use migration_platform.Sampling.Infer.{conclude, has_type_left, infer_column_type, note}
use migration_platform.Json.{get_field}
use migration_platform.Text.{split, str_eq, to_ascii_lowercase, trim}
use migration_platform.Sampling.Union.{keys}
use migration_platform.Prelude.{
  ℕ, ◌≡◌, refl, Bool, true, false, Option, some, List, [], ◌∷◌, length, Result, ok,
}
use migration_platform.Text.{Str, lit}
use migration_platform.Json.{Value, Number, number, pos_int, string, object, end, field}
use migration_platform.Sampling.Csv.{SampleResult, SampleError}
use migration_platform.Sampling.Json
use migration_platform.Sampling.Json.Scan.{best_effort_array, some_records}
use migration_platform.Sampling.Json.Complete.{values_of, best_effort_array_complete}
use migration_platform.Sampling.Json.Grammar.{
  Balanced, finish, plain, quoted, close_quote, literal, escaped, Part, between, complete, objects,
}
use migration_platform.Sampling.Json.Laws.{Samples, sample-Samples}
use migration_platform.Sampling.Xml.{
  Events, Attribute, open_tag, close_tag, local_name_eq, other, text,
}
use migration_platform.Sampling.Xml
use migration_platform.Sampling.Xml.Returns.{sample_returns}
use migration_platform.Sampling.Xml.Tree.{Nodes, element, text_node}
use migration_platform.Sampling.Xml.Tree
use migration_platform.Sampling.Xml.Document.{Piece, outside, a_record, document}
use migration_platform.Sampling.Xml.Sampled

abbrev never : Str → Bool
never s = false

abbrev utf8_of : List ℕ → Option Str
utf8_of bytes = some bytes

abbrev measured : Str → Result Str Value
measured s = ok (object (field (lit "size") (number (pos_int (length s))) end))

-- {"}"} and the beginning of the next object
abbrev whole : Balanced
whole = quoted (literal b'}' refl (escaped b'"' close_quote)) finish

abbrev next_object : Balanced
next_object = plain b'x' refl finish

abbrev parts : List Part
parts = between b'[' refl ∷ complete whole ∷ between b',' refl ∷ []

best_effort_array_complete_example :
    best_effort_array measured utf8_of (lit "[{\"}\\\"\"},{")
    ≡ some_records (values_of measured (objects parts))
best_effort_array_complete_example =
    best_effort_array_complete measured utf8_of (lit "[{\"}\\\"\"},{") parts (lit "{") (lit "x")
      next_object refl refl

abbrev number_text : Number → Str
number_text n = lit "7"

abbrev value_text : Value → Str
value_text v = lit "?"

abbrev two_rows : List ℕ → Result Str (List Value)
two_rows bytes = ok (
    object (field (lit "id") (number (pos_int 7)) end)
    ∷ object (field (lit "id") (number (pos_int 7)) (field (lit "name") (string (lit "Ada")) end))
    ∷ [])

abbrev json_sample : SampleResult
json_sample = record {
  format = lit "json";
  columns =
      record { name = lit "id"; column_type = lit "integer"; nullable = false }
      ∷ record { name = lit "name"; column_type = lit "string"; nullable = true }
      ∷ [];
  rows =
      field (lit "id") (number (pos_int 7)) end
      ∷ field (lit "id") (number (pos_int 7)) (field (lit "name") (string (lit "Ada")) end)
      ∷ [];
  row_count = 2;
  truncated = false;
  bytes_read = 1;
}

sampled_json :
    Json.sample two_rows measured utf8_of number_text value_text never never never (lit "[") 5 false
    ≡ ok json_sample
unfolding Json.sample keys str_eq get_field infer_column_type trim has_type_left note
    to_ascii_lowercase parse_i64 conclude
sampled_json = refl

sample-Samples_example :
    (records : List Value) × (Json.records_of two_rows measured utf8_of (lit "[") false
      ≡ ok records)
    × Samples number_text value_text never never never 5 false records json_sample
sample-Samples_example =
    sample-Samples number_text value_text never never never two_rows measured utf8_of (lit "[") 5
      false json_sample sampled_json

-- <r><id>7</id></r>, twice, under a root
abbrev contents : Nodes
contents = element (lit "id") [] (text_node (lit "7") Tree.finish) Tree.finish

root_named : local_name_eq utf8_of (lit "root") (lit "r") ≡ false
unfolding local_name_eq str_eq last_part split
root_named = refl

record_named : local_name_eq utf8_of (lit "r") (lit "r") ≡ true
unfolding local_name_eq str_eq last_part split
record_named = refl

abbrev pieces : List (Piece utf8_of (lit "r"))
pieces =
    outside (open_tag (lit "root") []) root_named
    ∷ a_record (lit "r") [] contents record_named
    ∷ outside other refl
    ∷ a_record (lit "r") [] contents record_named
    ∷ outside close_tag refl
    ∷ []

abbrev events_of : List ℕ → Events
events_of bytes = document utf8_of (lit "r") pieces

sample_returns_example :
    (outcome : Result SampleError SampleResult) × (Xml.sample value_text never never never utf8_of
        events_of
        (lit "<")
        1
        (lit "r")
        false
      ≡ some outcome)
sample_returns_example =
    sample_returns value_text never never never utf8_of events_of (lit "<") 1 (lit "r") false
