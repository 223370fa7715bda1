-- ===== src/Sampling/Xml/Returns.antt =====
-- apps/api/src/sampling/xml.rs: the loops end. Every call of the decoder leaves fewer events behind it
-- than it was given, so that the fuel does not run out.
use migration_platform.Prelude.{
  ◌⊎◌, leb, ◌++◌, Option-cases, ℕ, zero, suc, ◌≤◌, ◌<◌, ◌≡◌, ◌≢◌, refl, Bool, Option, none, some,
  List, [], ◌∷◌, length, Result, ok, err, arith, Bool-cases, inl, inr,
}
use migration_platform.Text.{Str}
use migration_platform.Json.{Value, Fields, end}
use migration_platform.Sampling.Csv.{SampleResult, SampleError, empty_input}
use migration_platform.Sampling.Xml.{
  record_tag_of, sampled, open_tag, empty_tag, close_tag, text, other, Events, decode_record,
  read_next_record, look_ahead, read_rows, sample, insert_first_only, local_name, simplify,
  insert_attributes, found, local_name_eq,
}

-- The call returned, with no more events than a bound behind it.
data Returned : ℕ → Option (Result Str (Fields × Events)) → Type 0 where
  failed : {n : ℕ} (e : Str) → Returned n (some (err e))
  done :
      {n : ℕ} (out : Fields) (behind : Events)
      → length behind ≤ n
      → Returned n (some (ok (out, behind)))

widen : {m n : ℕ} {r : Option (Result Str (Fields × Events))} → m ≤ n → Returned m r → Returned n r
widen le (failed e) = failed e
widen le (done out behind h) = done out behind (omega arith)

-- What follows a call that returned.
then-Returned :
    {n m : ℕ} {r : Option (Result Str (Fields × Events))}
    (next : Fields → Events → Option (Result Str (Fields × Events)))
    → Returned n r
    → ((out : Fields) (behind : Events) → length behind ≤ n → Returned m (next out behind))
    → Returned m (elim r [
      | none ↦ none
      | some (err e) ↦ some (err e)
      | some (ok (out, behind)) ↦ next out behind
    ])
then-Returned next (failed e) after = failed e
then-Returned next (done out behind h) after = after out behind h

-- The look for a record returned, with fewer events behind it if it found one.
data Looked : ℕ → Option (Result Str (Option (Fields × Events))) → Type 0 where
  broken : {n : ℕ} (e : Str) → Looked n (some (err e))
  absent : {n : ℕ} → Looked n (some (ok none))
  present :
      {n : ℕ} (row : Fields) (behind : Events)
      → length behind < n
      → Looked n (some (ok (some (row, behind))))

found-Looked :
    {n m : ℕ} {r : Option (Result Str (Fields × Events))}
    → n < m
    → Returned n r
    → Looked m (found r)
found-Looked lt (failed e) = broken e
found-Looked lt (done out behind h) = present out behind (omega arith)

widen-Looked :
    {m n : ℕ} {r : Option (Result Str (Option (Fields × Events)))} → m ≤ n → Looked m r → Looked n r
widen-Looked le (broken e) = broken e
widen-Looked le absent = absent
widen-Looked le (present row behind h) = present row behind (omega arith)

Looked-cases :
    {n : ℕ} {r : Option (Result Str (Option (Fields × Events)))}
    → Looked n r
    → ((e : Str) × (r ≡ some (err e)))
      ⊎ ((r ≡ some (ok none))
          ⊎ ((row : Fields) × (behind : Events) × (r ≡ some (ok (some (row, behind))))
              × (length behind < n)))
Looked-cases (broken e) = inl (e, refl)
Looked-cases absent = inr (inl refl)
Looked-cases (present row behind h) = inr (inr (row, behind, refl, h))

module _ (from_utf8 : List ℕ → Option Str) where
  decode_record-Returned :
      (fuel : ℕ) (events : Events) (out : Fields)
      → length events < fuel
      → Returned (length events) (decode_record from_utf8 fuel events out)
  unfolding decode_record
  decode_record-Returned zero events out h = elim h [ ]
  decode_record-Returned (suc fuel) [] out h = done out [] (omega arith)
  decode_record-Returned (suc fuel) (err e ∷ events) out h = failed e
  decode_record-Returned (suc fuel) (ok close_tag ∷ events) out h = done out events (omega arith)
  decode_record-Returned (suc fuel) (ok (open_tag name attrs) ∷ events) out h =
      then-Returned
        (λ child behind.
          decode_record from_utf8 fuel behind
            (insert_first_only out (local_name from_utf8 name) (simplify child)))
        (decode_record-Returned fuel events (insert_attributes from_utf8 attrs end) (omega arith))
        (λ child behind le.
          widen (omega arith) (decode_record-Returned fuel behind _ (omega arith)))
  decode_record-Returned (suc fuel) (ok (text (err e)) ∷ events) out h = failed e
  decode_record-Returned (suc fuel) (ok (text (ok txt)) ∷ events) out h =
      widen (omega arith) (decode_record-Returned fuel events _ (omega arith))
  decode_record-Returned (suc fuel) (ok (empty_tag name attrs) ∷ events) out h =
      widen (omega arith) (decode_record-Returned fuel events _ (omega arith))
  decode_record-Returned (suc fuel) (ok other ∷ events) out h =
      widen (omega arith) (decode_record-Returned fuel events out (omega arith))

  read_next_record-Looked :
      (tag : Str) (events : Events) → Looked (length events) (read_next_record from_utf8 tag events)
  unfolding read_next_record
  read_next_record-Looked tag [] = absent
  read_next_record-Looked tag (err e ∷ events) = broken e
  read_next_record-Looked tag (ok (open_tag name attrs) ∷ events) =
      elim (Bool-cases (local_name_eq from_utf8 name tag)) [
        | inl hit ↦
            rw (read_next_record, hit)
              (found-Looked (omega arith) (
                decode_record-Returned (suc (length events)) events
                  (insert_attributes from_utf8 attrs end) (omega arith)))
        | inr miss ↦
            rw (read_next_record, miss)
              (widen-Looked (omega arith) (read_next_record-Looked tag events))
      ]
  read_next_record-Looked tag (ok (empty_tag name attrs) ∷ events) =
      widen-Looked (omega arith) (read_next_record-Looked tag events)
  read_next_record-Looked tag (ok close_tag ∷ events) =
      widen-Looked (omega arith) (read_next_record-Looked tag events)
  read_next_record-Looked tag (ok (text t) ∷ events) =
      widen-Looked (omega arith) (read_next_record-Looked tag events)
  read_next_record-Looked tag (ok other ∷ events) =
      widen-Looked (omega arith) (read_next_record-Looked tag events)

  module _ (row_cap : ℕ) (tag : Str) (truncated_input : Bool) where
    look_ahead_returns :
        (rows : List Fields) (events : Events)
        → look_ahead from_utf8 row_cap tag truncated_input rows events ≢ none
    unfolding look_ahead
    look_ahead_returns rows events = elim (Looked-cases (read_next_record-Looked tag events)) [
      | inl (e, h) ↦ rw (look_ahead, h) (λ z. cc z)
      | inr (inl h) ↦ rw (look_ahead, h) (λ z. cc z)
      | inr (inr (row, behind, h, less)) ↦ rw (look_ahead, h) (λ z. cc z)
    ]

    read_rows_returns :
        (fuel : ℕ) (rows : List Fields) (events : Events)
        → length events < fuel
        → read_rows from_utf8 row_cap tag truncated_input fuel rows events ≢ none
    unfolding read_rows
    read_rows_returns zero rows events lt = elim lt [ ]
    read_rows_returns (suc fuel) rows events lt = elim (Bool-cases (leb row_cap (length rows))) [
      | inl full ↦ rw full (look_ahead_returns rows events)
      | inr room ↦ rw room (elim (Looked-cases (read_next_record-Looked tag events)) [
        | inl (e, h) ↦ rw h (λ z. cc z)
        | inr (inl h) ↦ rw h (λ z. cc z)
        | inr (inr (row, behind, h, less)) ↦
            rw h (read_rows_returns fuel (rows ++ (row ∷ [])) behind (omega arith))
      ])
    ]

module _ (value_text : Value → Str) (is_f64 is_rfc3339 is_date : Str → Bool)
    (from_utf8 : List ℕ → Option Str) (events_of : List ℕ → Events) where
  -- The loops of the sampling of an XML file, over the records and over the contents of an element,
  -- end: as many steps as there are events, and one more, are enough to come to a sample or to an
  -- error. The depth of the stack, on which the source decodes nested elements, is not modelled.
  pub sample_returns :
      (bytes : List ℕ) (row_cap : ℕ) (record_tag : Str) (truncated_input : Bool)
      → (outcome : Result SampleError SampleResult) × (sample value_text is_f64 is_rfc3339 is_date
            from_utf8 events_of bytes row_cap record_tag truncated_input
          ≡ some outcome)
  unfolding sample
  sample_returns [] row_cap record_tag t = (err empty_input, refl)
  sample_returns (b ∷ bytes) row_cap record_tag t =
      let tag = record_tag_of record_tag in
      let events = events_of (b ∷ bytes) in
      elim (Option-cases (read_rows from_utf8 row_cap tag t (suc (length events)) [] events)) [
        | inl out_of_fuel ↦ absurd (
            read_rows_returns from_utf8 row_cap tag t (suc (length events)) [] events (omega arith)
              out_of_fuel)
        | inr (rows, e) ↦
            (sampled value_text is_f64 is_rfc3339 is_date tag (length (b ∷ bytes)) rows, rw e)
      ]
