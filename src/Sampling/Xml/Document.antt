-- ===== src/Sampling/Xml/Document.antt =====
-- apps/api/src/sampling/xml.rs: the rows of a whole document.
use mathlib.Core.List.{append-nil, append_assoc}
use native.Mathlib.Decide.{dec_lt}
use migration_platform.Prelude.{
  ℕ, zero, suc, ◌+◌, ◌-◌, ◌++◌, ◌≤◌, ◌<◌, ◌≡◌, refl, sym, ap, ◌∙◌, Bool, true, false, ◌||◌, Option,
  none, some, List, [], ◌∷◌, length, take, length-append, Result, ok, arith, Bool-cases, inl, inr,
  leb, ltb,
}
use migration_platform.Text.{Str}
use migration_platform.Json.{Fields, end}
use migration_platform.Sampling.Csv.{SampleError}
use migration_platform.Sampling.Xml.{
  Attribute, Event, open_tag, empty_tag, close_tag, text, other, Events, read_next_record,
  local_name_eq, insert_attributes, Rows, look_ahead, read_rows,
}
use migration_platform.Sampling.Xml.Tree.{Nodes, events, fields_of, decode_record-fields_of}

or_true : (b : Bool) → b || true ≡ true
or_true b = ground arith

or_false : (b : Bool) → b || false ≡ b
or_false b = ground arith

take_nil : (n : ℕ) → take {A = Fields} n [] ≡ []
take_nil zero = refl
take_nil (suc n) = refl

module _ (from_utf8 : List ℕ → Option Str) (tag : Str) where
  abbrev pub opens_record : Event → Bool
  opens_record (open_tag name attrs) = local_name_eq from_utf8 name tag
  opens_record (empty_tag name attrs) = false
  opens_record close_tag = false
  opens_record (text t) = false
  opens_record other = false

  -- A piece of a document: a record with its contents, or an event outside of all records.
  pub data Piece : Type 0 where
    outside : (e : Event) → opens_record e ≡ false → Piece
    a_record :
        (name : List ℕ) → List Attribute → Nodes → local_name_eq from_utf8 name tag ≡ true → Piece

  abbrev pub document : List Piece → Events
  document [] = []
  document (outside e h ∷ ps) = ok e ∷ document ps
  document (a_record name attrs nodes h ∷ ps) =
      ok (open_tag name attrs) ∷ (events nodes ++ (ok close_tag ∷ document ps))

  abbrev pub rows_in : List Piece → List Fields
  rows_in [] = []
  rows_in (outside e h ∷ ps) = rows_in ps
  rows_in (a_record name attrs nodes h ∷ ps) =
      fields_of from_utf8 nodes (insert_attributes from_utf8 attrs end) ∷ rows_in ps

  -- An event outside of the records is passed over.
  next-outside :
      (e : Event) (behind : Events)
      → opens_record e ≡ false
      → read_next_record from_utf8 tag (ok e ∷ behind) ≡ read_next_record from_utf8 tag behind
  unfolding read_next_record
  next-outside (open_tag name attrs) behind h = rw (read_next_record, h)
  next-outside (empty_tag name attrs) behind h = refl
  next-outside close_tag behind h = refl
  next-outside (text t) behind h = refl
  next-outside other behind h = refl

  next-record :
      (name : List ℕ) (attrs : List Attribute) (nodes : Nodes) (behind : Events)
      → local_name_eq from_utf8 name tag ≡ true
      → read_next_record from_utf8 tag
          (ok (open_tag name attrs) ∷ (events nodes ++ (ok close_tag ∷ behind)))
        ≡ some
            (ok (some (fields_of from_utf8 nodes (insert_attributes from_utf8 attrs end), behind)))
  unfolding read_next_record
  next-record name attrs nodes behind h =
      let inner = events nodes ++ (ok close_tag ∷ behind) in
      rw (
        read_next_record,
        h,
        decode_record-fields_of from_utf8 (suc (length inner)) nodes behind
            (insert_attributes from_utf8 attrs end) (omega arith),
      )

  module _ (row_cap : ℕ) (truncated_input : Bool) where
    abbrev rows_from : ℕ → List Fields → Events → Option (Result SampleError Rows)
    rows_from fuel rows evs = read_rows from_utf8 row_cap tag truncated_input fuel rows evs

    -- The loop depends on the events only by the next record among them.
    step-same :
        (fuel : ℕ) (rows : List Fields) (a b : Events)
        → read_next_record from_utf8 tag a ≡ read_next_record from_utf8 tag b
        → rows_from fuel rows a ≡ rows_from fuel rows b
    unfolding read_rows look_ahead
    step-same zero rows a b h = refl
    step-same (suc fuel) rows a b h = rw (look_ahead, h)

    step-end :
        (fuel : ℕ) (rows : List Fields) (evs : Events)
        → read_next_record from_utf8 tag evs ≡ some (ok none)
        → rows_from (suc fuel) rows evs ≡ some (ok (rows, truncated_input))
    unfolding read_rows look_ahead
    step-end fuel rows evs h = elim (Bool-cases (leb row_cap (length rows))) [
      | inl full ↦ rw (full, look_ahead, h)
      | inr room ↦ rw (room, h)
    ]

    step-full :
        (fuel : ℕ) (rows : List Fields) (evs : Events) (row : Fields) (behind : Events)
        → row_cap ≤ length rows
        → read_next_record from_utf8 tag evs ≡ some (ok (some (row, behind)))
        → rows_from (suc fuel) rows evs ≡ some (ok (rows, true))
    unfolding read_rows look_ahead
    step-full fuel rows evs row behind full h =
        let test : leb row_cap (length rows) ≡ true = ground arith in rw (test, look_ahead, h)

    step-room :
        (fuel : ℕ) (rows : List Fields) (evs : Events) (row : Fields) (behind : Events)
        → length rows < row_cap
        → read_next_record from_utf8 tag evs ≡ some (ok (some (row, behind)))
        → rows_from (suc fuel) rows evs ≡ rows_from fuel (rows ++ (row ∷ [])) behind
    unfolding read_rows
    step-room fuel rows evs row behind room h =
        let test : leb row_cap (length rows) ≡ false = ground arith in rw (test, h)

    -- What the loop should end with.
    abbrev pub outcome : List Fields → List Fields → Rows
    outcome rows more = (
      rows ++ take (row_cap - length rows) more,
      truncated_input || ltb row_cap (length rows + length more),
    )

    -- A full sample is marked, if a record is left.
    outcome-full :
        (rows : List Fields) (row : Fields) (more : List Fields)
        → length rows ≡ row_cap
        → outcome rows (row ∷ more) ≡ (rows, true)
    outcome-full rows row more h =
        let left : row_cap - length rows ≡ 0 = omega arith in
        let over : ltb row_cap (length rows + suc (length more)) ≡ true = ground arith in
        rw (left, over, append-nil rows) (ap (λ b. (rows, b)) (or_true truncated_input))

    outcome-room :
        (rows : List Fields) (row : Fields) (more : List Fields)
        → length rows < row_cap
        → outcome (rows ++ (row ∷ [])) more ≡ outcome rows (row ∷ more)
    outcome-room rows row more h =
        let grown = length-append rows (row ∷ []) in
        let left : row_cap - length rows ≡ suc (row_cap - length (rows ++ (row ∷ []))) =
          omega (arith, grown) in
        let count : length (rows ++ (row ∷ [])) + length more ≡ length rows + suc (length more) =
          omega (arith, grown) in
        rw (
          count,
          left,
          append_assoc rows (row ∷ []) (take (row_cap - length (rows ++ (row ∷ []))) more),
        )

    outcome_nil :
        (rows : List Fields) → length rows ≤ row_cap → outcome rows [] ≡ (rows, truncated_input)
    outcome_nil rows h =
        let under : ltb row_cap (length rows + 0) ≡ false = ground arith in
        let none_left = take_nil (row_cap - length rows) in
        rw (under, none_left, append-nil rows) (ap (λ b. (rows, b)) (or_false truncated_input))

    pub outcome_start :
        (more : List Fields)
        → outcome [] more ≡ (take row_cap more, truncated_input || ltb row_cap (length more))
    outcome_start more =
        let all_left : row_cap - 0 ≡ row_cap = omega arith in
        let count : 0 + length more ≡ length more = omega arith in rw (all_left, count)

    pub read_rows-document :
        (fuel : ℕ) (rows : List Fields) (ps : List Piece)
        → length rows ≤ row_cap
        → length (document ps) < fuel
        → rows_from fuel rows (document ps) ≡ some (ok (outcome rows (rows_in ps)))
    unfolding read_next_record
    read_rows-document zero rows ps le lt = absurd (omega arith)
    read_rows-document (suc fuel) rows [] le lt =
        step-end fuel rows [] refl ∙ ap (λ o. some (ok o)) (sym (outcome_nil rows le))
    read_rows-document (suc fuel) rows (outside e h ∷ ps) le lt =
        step-same (suc fuel) rows (ok e ∷ document ps) (document ps)
          (next-outside e (document ps) h)
        ∙ read_rows-document (suc fuel) rows ps le (omega arith)
    read_rows-document (suc fuel) rows (a_record name attrs nodes h ∷ ps) le lt =
        let evs = document (a_record name attrs nodes h ∷ ps) in
        let row = fields_of from_utf8 nodes (insert_attributes from_utf8 attrs end) in
        let next = next-record name attrs nodes (document ps) h in
        elim (dec_lt (length rows) row_cap) [
          | no full ↦
              step-full fuel rows evs row (document ps) (omega arith) next
              ∙ ap (λ o. some (ok o)) (sym (outcome-full rows row (rows_in ps) (omega arith)))
          | yes room ↦
              step-room fuel rows evs row (document ps) room next
              ∙ read_rows-document fuel (rows ++ (row ∷ [])) ps
                  (omega (arith, length-append rows (row ∷ [])))
                  (omega (arith, length-append (events nodes) (ok close_tag ∷ document ps)))
              ∙ ap (λ o. some (ok o)) (outcome-room rows row (rows_in ps) room)
        ]
