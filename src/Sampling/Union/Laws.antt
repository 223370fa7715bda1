-- ===== src/Sampling/Union/Laws.antt =====
-- The columns of rows with different keys: one for each key of any row, in no order, with the values
-- that the rows have under it.
use mathlib.Core.List.{append-nil, append_assoc}
use migration_platform.Prelude.{
  ◌≡◌, refl, ap, ◌∙◌, Bool, true, false, ◌||◌, none, some, List, [], ◌∷◌, ◌++◌, map, All, any,
  arith, Bool-cases, inl, inr, if◌then◌else◌, Option-cases,
}
use migration_platform.Text.{Str, str_eq, str_eq_iff}
use migration_platform.Json.{Value, Fields, get_field}
use migration_platform.Sampling.Infer.{infer_column_type}
use migration_platform.Sampling.Csv.{Column, fresh_column, SampleColumn}
use migration_platform.Sampling.Union.{
  keys, has_name, add_keys, key_order_from, is_null, add_value, add_row, add_rows, described,
  columns_of,
}

-- No name stands twice.
abbrev pub IsDistinct : List Str → Type 0
IsDistinct [] = Unit
IsDistinct (k ∷ ks) = (has_name k ks ≡ false) × IsDistinct ks

-- Whether some row has the key, and whether some row has no value under it.
abbrev pub is_key : Str → List Fields → Bool
is_key k rows = any (λ row. has_name k (keys row)) rows

abbrev pub lacks : Str → Fields → Bool
lacks k row = elim (get_field k row) [ none ↦ true | some v ↦ is_null v ]

has_name-append : (k : Str) (a b : List Str) → has_name k (a ++ b) ≡ has_name k a || has_name k b
has_name-append k [] b = refl
has_name-append k (x ∷ a) b = ground (arith, has_name-append k a b)

str_eq_sym : (a b : Str) → str_eq a b ≡ str_eq b a
str_eq_sym a b = ground (arith, str_eq_iff a b, str_eq_iff b a)

append-IsDistinct :
    (a : List Str) (k : Str) → IsDistinct a → has_name k a ≡ false → IsDistinct (a ++ (k ∷ []))
append-IsDistinct [] k d h = (refl, tt)
append-IsDistinct (x ∷ a) k d h = (
  ground (arith, has_name-append x a (k ∷ []), str_eq_sym x k),
  append-IsDistinct a k d.1 (ground arith),
)

add_keys-IsDistinct : (order ks : List Str) → IsDistinct order → IsDistinct (add_keys order ks)
unfolding add_keys
add_keys-IsDistinct order [] d = d
add_keys-IsDistinct order (k ∷ ks) d = elim (Bool-cases (has_name k order)) [
  | inl old ↦ rw old (add_keys-IsDistinct order ks d)
  | inr new ↦ rw new (add_keys-IsDistinct (order ++ (k ∷ [])) ks (append-IsDistinct order k d new))
]

has_name-eq : {x k : Str} (names : List Str) → x ≡ k → has_name x names ≡ has_name k names
has_name-eq names e = ap (λ z. has_name z names) e

add_keys-has_name :
    (x : Str) (order ks : List Str)
    → has_name x (add_keys order ks) ≡ has_name x order || has_name x ks
unfolding add_keys
add_keys-has_name x order [] = ground arith
add_keys-has_name x order (k ∷ ks) = elim (Bool-cases (has_name k order)) [
  | inl old ↦ elim (Bool-cases (str_eq x k)) [
    | inl same ↦
        let e : x ≡ k = (str_eq_iff x k).0 same in
        ground (arith, add_keys-has_name x order ks, has_name-eq order e)
    | inr other ↦ ground (arith, add_keys-has_name x order ks)
  ]
  | inr new ↦
      ground (arith, add_keys-has_name x (order ++ (k ∷ [])) ks, has_name-append x order (k ∷ []))
]

key_order_from-IsDistinct :
    (order : List Str) (rows : List Fields)
    → IsDistinct order
    → IsDistinct (key_order_from order rows)
unfolding key_order_from
key_order_from-IsDistinct order [] d = d
key_order_from-IsDistinct order (row ∷ rows) d =
    key_order_from-IsDistinct (add_keys order (keys row)) rows
      (add_keys-IsDistinct order (keys row) d)

key_order_from-has_name :
    (x : Str) (order : List Str) (rows : List Fields)
    → has_name x (key_order_from order rows) ≡ has_name x order || is_key x rows
unfolding key_order_from
key_order_from-has_name x order [] = ground arith
key_order_from-has_name x order (row ∷ rows) = ground (
  arith,
  key_order_from-has_name x (add_keys order (keys row)) rows,
  add_keys-has_name x order (keys row),
)

module _ (text_of : Value → Str) where
  -- The text of the row under a key: empty, if it lacks a value there.
  abbrev pub text_under : Str → Fields → Str
  text_under k row = elim (get_field k row) [
    | none ↦ []
    | some v ↦ if is_null v then [] else text_of v
  ]

  abbrev filled : List Fields → Column → Column
  filled rows col = record {
    header = col.header;
    raw = col.raw ++ map (text_under col.header) rows;
    nullable = col.nullable || any (lacks col.header) rows;
  }

  -- One row more, and then the others.
  add_value-filled :
      (row : Fields) (rows : List Fields) (col : Column)
      → filled rows (add_value text_of (get_field col.header row) col) ≡ filled (row ∷ rows) col
  unfolding add_value
  add_value-filled row rows col = elim (Option-cases (get_field col.header row)) [
    | inl missing ↦
        rw missing
          (ground (arith, append_assoc col.raw ([] ∷ []) (map (text_under col.header) rows)))
    | inr (v, there) ↦ elim (Bool-cases (is_null v)) [
      | inl blank ↦
          ground (arith, append_assoc col.raw ([] ∷ []) (map (text_under col.header) rows))
      | inr full ↦
          ground (arith, append_assoc col.raw (text_of v ∷ []) (map (text_under col.header) rows))
    ]
  ]

  add_row-filled :
      (row : Fields) (rows : List Fields) (cols : List Column)
      → map (filled rows) (add_row text_of row cols) ≡ map (filled (row ∷ rows)) cols
  unfolding add_row
  add_row-filled row rows [] = refl
  add_row-filled row rows (col ∷ cols) =
      cc (add_value-filled row rows col, add_row-filled row rows cols)

  filled_nil : (col : Column) → filled [] col ≡ col
  filled_nil col = ground (arith, append-nil col.raw)

  add_rows-filled :
      (rows : List Fields) (cols : List Column)
      → add_rows text_of rows cols ≡ map (filled rows) cols
  unfolding add_rows
  add_rows-filled [] [] = refl
  add_rows-filled [] (col ∷ cols) = cc (filled_nil col, add_rows-filled [] cols)
  add_rows-filled (row ∷ rows) cols =
      add_rows-filled rows (add_row text_of row cols) ∙ add_row-filled row rows cols

  module _ (is_f64 is_rfc3339 is_date : Str → Bool) where
    abbrev pub infer : List Str → Str
    infer values = infer_column_type is_f64 is_rfc3339 is_date values

    -- What the rows say of one column.
    abbrev pub Describes : List Fields → SampleColumn → Type 0
    Describes rows c =
        (c.column_type ≡ infer (map (text_under c.name) rows))
        × (c.nullable ≡ any (lacks c.name) rows)

    -- One column for each key of any row, described by all rows.
    pub record IsUnion (rows : List Fields) (columns : List SampleColumn) : Type 0 where
      pub distinct : IsDistinct (map (λ c. c.name) columns)
      pub complete : (k : Str) → has_name k (map (λ c. c.name) columns) ≡ is_key k rows
      pub described_by : All (Describes rows) columns

    abbrev described_at : List Fields → Str → SampleColumn
    described_at rows k = described text_of is_f64 is_rfc3339 is_date (filled rows (fresh_column k))

    described-map :
        (rows : List Fields) (ks : List Str)
        → map
            (described text_of is_f64 is_rfc3339 is_date)
            (map (filled rows) (map fresh_column ks))
          ≡ map (described_at rows) ks
    described-map rows [] = refl
    described-map rows (k ∷ ks) = cc (described-map rows ks)

    described-name :
        (rows : List Fields) (ks : List Str) → map (λ c. c.name) (map (described_at rows) ks) ≡ ks
    described-name rows [] = refl
    described-name rows (k ∷ ks) = cc (described-name rows ks)

    described-Describes :
        (rows : List Fields) (ks : List Str) → All (Describes rows) (map (described_at rows) ks)
    described-Describes rows [] = tt
    described-Describes rows (k ∷ ks) = ((refl, refl), described-Describes rows ks)

    columns_of-eq :
        (rows : List Fields)
        → columns_of text_of is_f64 is_rfc3339 is_date rows
          ≡ map (described_at rows) (key_order_from [] rows)
    unfolding columns_of
    columns_of-eq rows =
        ap (map (described text_of is_f64 is_rfc3339 is_date))
          (add_rows-filled rows (map fresh_column (key_order_from [] rows)))
        ∙ described-map rows (key_order_from [] rows)

    pub columns_of-IsUnion :
        (rows : List Fields) → IsUnion rows (columns_of text_of is_f64 is_rfc3339 is_date rows)
    columns_of-IsUnion rows =
        let ks = key_order_from [] rows in
        rw (columns_of-eq rows) (record {
          distinct = rw (described-name rows ks) (key_order_from-IsDistinct [] rows tt);
          complete = λ k. rw (described-name rows ks) (key_order_from-has_name k [] rows);
          described_by = described-Describes rows ks;
        })
