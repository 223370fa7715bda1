-- ===== src/Sampling/Xml.antt =====
-- apps/api/src/sampling/xml.rs: a sample of an XML file. The reader of quick_xml is an argument: the
-- events that it gives of the bytes until the end of the file, each with its attributes and text as
-- the reader decodes them, or an error. A position in the file is the list of the events behind it.
-- The loops of the source end when the events do; they are written on fuel, and `none` means that the
-- fuel ran out.
pub mod Returns
pub mod Tree
pub mod Document
pub mod Sampled
use mathlib.Core.Option
use migration_platform.Prelude.{
  ℕ, zero, suc, ◌+◌, ◌++◌, Bool, true, false, not, ◌&&◌, Option, none, some, is_empty, List, [],
  ◌∷◌, length, Result, ok, err, is_none, is_some, ◌==◌, ltb, leb, if◌then◌else◌,
}
use migration_platform.Text.{Str, lit, str_eq, trim}
use migration_platform.Text.Parts.{last_part}
use migration_platform.Json.{
  Value, null, bool, number, string, array, object, Fields, end, field, get_field,
}
use migration_platform.Sampling.Csv.{SampleResult, SampleError, invalid, empty_input}
use migration_platform.Sampling.Union.{columns_of}

-- The key's local part, and the value if it could be decoded.
pub record Attribute : Type 0 where
  pub key : List ℕ
  pub value : Option Str

-- quick_xml's `Event`, as far as the sampler tells them apart; `Eof` is the end of the list.
pub data Event : Type 0 where
  open_tag : List ℕ → List Attribute → Event
  empty_tag : List ℕ → List Attribute → Event
  close_tag : Event
  text : Result Str Str → Event
  other : Event

abbrev pub Events : Type 0
Events = List (Result Str Event)

-- The order of the keys of a `Map`, which is that of their bytes.
unfoldable pub str_lt : Str → Str → Bool
str_lt a [] = false
str_lt [] (y ∷ b) = true
str_lt (x ∷ a) (y ∷ b) = if x == y then str_lt a b else ltb x y

-- `Map::insert`
unfoldable pub insert : Str → Value → Fields → Fields
unfolding str_lt
insert k v end = field k v end
insert k v (field j w fs) =
    let later = insert k v fs in
    if str_eq j k
    then field j v fs
    else if str_lt k j
    then field k v (field j w fs)
    else field j w later

unfoldable pub insert_first_only : Fields → Str → Value → Fields
unfolding insert
insert_first_only out key value = if is_none (get_field key out) then insert key value out else out

abbrev or_object : Fields → Option Value → Value
or_object m (some v) = v
or_object m none = object m

unfoldable pub simplify : Fields → Value
simplify end = object end
simplify (field k v end) = or_object (field k v end) (get_field (lit "$text") (field k v end))
simplify (field k v (field j w fs)) = object (field k v (field j w fs))

abbrev pub or_empty : Option Str → Str
or_empty (some s) = s
or_empty none = []

abbrev is_end : Fields → Bool
is_end end = true
is_end (field k v fs) = false

abbrev pub found :
    Option (Result Str (Fields × Events)) → Option (Result Str (Option (Fields × Events)))
found none = none
found (some (err e)) = some (err e)
found (some (ok r)) = some (ok (some r))

-- The rows that were read, and whether the sample is short of the file.
abbrev pub Rows : Type 0
Rows = List Fields × Bool

module _ (from_utf8 : List ℕ → Option Str) where
  unfoldable pub local_name : List ℕ → Str
  local_name name = last_part b':' (or_empty (from_utf8 name))

  unfoldable pub local_name_eq : List ℕ → Str → Bool
  unfolding local_name
  local_name_eq qname wanted = str_eq (local_name qname) wanted

  -- The loop over the attributes.
  unfoldable pub insert_attributes : List Attribute → Fields → Fields
  unfolding insert
  insert_attributes [] obj = obj
  insert_attributes (attr ∷ attrs) obj =
      insert_attributes attrs
        (insert (b'@' ∷ or_empty (from_utf8 attr.key)) (string (or_empty attr.value)) obj)

  -- What an element without content leaves.
  unfoldable pub empty_value : List Attribute → Value
  unfolding insert_attributes simplify
  empty_value attrs =
      let child = insert_attributes attrs end in if is_end child then null else simplify child

  unfoldable pub insert_text : Str → Fields → Fields
  unfolding insert
  insert_text txt out = if is_empty (trim txt) then out else insert (lit "$text") (string txt) out

  -- The body of an element, with the events behind its end.
  unfoldable pub decode_record : ℕ → Events → Fields → Option (Result Str (Fields × Events))
  unfolding insert_attributes insert_text insert_first_only empty_value simplify local_name
  decode_record zero events out = none
  decode_record (suc fuel) [] out = some (ok (out, []))
  decode_record (suc fuel) (err e ∷ events) out = some (err e)
  decode_record (suc fuel) (ok close_tag ∷ events) out = some (ok (out, events))
  decode_record (suc fuel) (ok (open_tag name attrs) ∷ events) out =
      elim (decode_record fuel events (insert_attributes attrs end)) [
        | none ↦ none
        | some (err e) ↦ some (err e)
        | some (ok (child, behind)) ↦
            decode_record fuel behind (insert_first_only out (local_name name) (simplify child))
      ]
  decode_record (suc fuel) (ok (text (err e)) ∷ events) out = some (err e)
  decode_record (suc fuel) (ok (text (ok txt)) ∷ events) out =
      decode_record fuel events (insert_text txt out)
  decode_record (suc fuel) (ok (empty_tag name attrs) ∷ events) out =
      decode_record fuel events (insert_first_only out (local_name name) (empty_value attrs))
  decode_record (suc fuel) (ok other ∷ events) out = decode_record fuel events out

  -- The next record, with the events behind it; each event is fuel enough for one round.
  unfoldable pub read_next_record : Str → Events → Option (Result Str (Option (Fields × Events)))
  read_next_record tag [] = some (ok none)
  read_next_record tag (err e ∷ events) = some (err e)
  read_next_record tag (ok (open_tag name attrs) ∷ events) = elim (local_name_eq name tag) [
    | true ↦ found (decode_record (suc (length events)) events (insert_attributes attrs end))
    | false ↦ read_next_record tag events
  ]
  read_next_record tag (ok (empty_tag name attrs) ∷ events) = read_next_record tag events
  read_next_record tag (ok close_tag ∷ events) = read_next_record tag events
  read_next_record tag (ok (text t) ∷ events) = read_next_record tag events
  read_next_record tag (ok other ∷ events) = read_next_record tag events

  module _ (row_cap : ℕ) (tag : Str) (truncated_input : Bool) where
    abbrev pub stopped_by : List Fields → Str → Result SampleError Rows
    stopped_by rows e = if truncated_input then ok (rows, true) else err (invalid (lit "xml") e)

    -- The look ahead behind the cap.
    unfoldable pub look_ahead : List Fields → Events → Option (Result SampleError Rows)
    look_ahead rows events = elim (read_next_record tag events) [
      | none ↦ none
      | some (err e) ↦ some (stopped_by rows e)
      | some (ok none) ↦ some (ok (rows, truncated_input))
      | some (ok (some _)) ↦ some (ok (rows, true))
    ]

    -- The loop over the records.
    unfoldable pub read_rows : ℕ → List Fields → Events → Option (Result SampleError Rows)
    unfolding look_ahead
    read_rows zero rows events = none
    read_rows (suc fuel) rows events =
        let full = look_ahead rows events in
        let next : Option (Result SampleError Rows) = elim (read_next_record tag events) [
          | none ↦ none
          | some (err e) ↦ some (stopped_by rows e)
          | some (ok none) ↦ some (ok (rows, truncated_input))
          | some (ok (some (row, behind))) ↦ read_rows fuel (rows ++ (row ∷ [])) behind
        ] in
        if leb row_cap (length rows) then full else next

abbrev pub record_tag_of : Str → Str
record_tag_of record_tag = if is_empty record_tag then lit "record" else record_tag

-- What is pushed for a value that is neither missing nor null.
unfoldable pub xml_text : (value_text : Value → Str) → Value → Str
xml_text value_text (string s) = s
xml_text value_text null = value_text null
xml_text value_text (bool b) = value_text (bool b)
xml_text value_text (number n) = value_text (number n)
xml_text value_text (array vs) = value_text (array vs)
xml_text value_text (object fs) = value_text (object fs)

module _ (value_text : Value → Str) (is_f64 is_rfc3339 is_date : Str → Bool) where
  abbrev pub sampled : Str → ℕ → Result SampleError Rows → Result SampleError SampleResult
  sampled tag bytes_read (err e) = err e
  sampled tag bytes_read (ok ([], truncated)) =
      err (invalid (lit "xml") (lit "no <" ++ (tag ++ lit "> records found")))
  sampled tag bytes_read (ok (row ∷ rows, truncated)) = ok (record {
    format = lit "xml";
    columns = columns_of (xml_text value_text) is_f64 is_rfc3339 is_date (row ∷ rows);
    rows = row ∷ rows;
    row_count = length (row ∷ rows);
    truncated = truncated;
    bytes_read = bytes_read;
  })

  module _ (from_utf8 : List ℕ → Option Str) (events_of : List ℕ → Events) where
    -- Each record takes an event at least, so that as many rounds as there are events, and one more,
    -- are enough.
    unfoldable pub sample : List ℕ → ℕ → Str → Bool → Option (Result SampleError SampleResult)
    sample bytes row_cap record_tag truncated_input =
        if is_empty bytes
        then some (err empty_input)
        else Option.map (sampled (record_tag_of record_tag) (length bytes)) (
            read_rows from_utf8 row_cap (record_tag_of record_tag) truncated_input
              (suc (length (events_of bytes))) [] (events_of bytes))
