-- ===== src/Sampling/Xml/Tree.antt =====
-- apps/api/src/sampling/xml.rs: what the decoder makes of a document whose elements are closed. The
-- document is described as a tree, with the next sibling in each node.
use mathlib.Core.List.{append_assoc}
use migration_platform.Prelude.{
  ℕ, zero, suc, ◌++◌, ◌<◌, ◌≡◌, refl, ap, Option, some, List, [], ◌∷◌, length, length-append, ok,
  arith,
}
use migration_platform.Text.{Str}
use migration_platform.Json.{Fields, end}
use migration_platform.Sampling.Xml.{
  Attribute, open_tag, empty_tag, close_tag, text, other, Events, decode_record, insert_first_only,
  local_name, simplify, insert_attributes, empty_value, insert_text,
}

-- The contents of an element: elements, elements without content, text, and what the sampler skips.
pub data Nodes : Type 0 where
  finish : Nodes
  element : List ℕ → List Attribute → Nodes → Nodes → Nodes
  empty_element : List ℕ → List Attribute → Nodes → Nodes
  text_node : Str → Nodes → Nodes
  skipped : Nodes → Nodes

abbrev pub events : Nodes → Events
events finish = []
events (element name attrs inner rest) =
    ok (open_tag name attrs) ∷ (events inner ++ (ok close_tag ∷ events rest))
events (empty_element name attrs rest) = ok (empty_tag name attrs) ∷ events rest
events (text_node txt rest) = ok (text (ok txt)) ∷ events rest
events (skipped rest) = ok other ∷ events rest

module _ (from_utf8 : List ℕ → Option Str) where
  -- The fields of an element, by its structure: attributes first, then its contents in their order.
  abbrev pub fields_of : Nodes → Fields → Fields
  fields_of finish out = out
  fields_of (element name attrs inner rest) out = fields_of rest (
      insert_first_only out (local_name from_utf8 name)
        (simplify (fields_of inner (insert_attributes from_utf8 attrs end))))
  fields_of (empty_element name attrs rest) out =
      fields_of rest
        (insert_first_only out (local_name from_utf8 name) (empty_value from_utf8 attrs))
  fields_of (text_node txt rest) out = fields_of rest (insert_text from_utf8 txt out)
  fields_of (skipped rest) out = fields_of rest out

  pub decode_record-fields_of :
      (fuel : ℕ) (nodes : Nodes) (behind : Events) (out : Fields)
      → length (events nodes ++ (ok close_tag ∷ behind)) < fuel
      → decode_record from_utf8 fuel (events nodes ++ (ok close_tag ∷ behind)) out
        ≡ some (ok (fields_of nodes out, behind))
  unfolding decode_record
  decode_record-fields_of zero nodes behind out h = absurd (omega arith)
  decode_record-fields_of (suc fuel) finish behind out h = refl
  decode_record-fields_of (suc fuel) (element name attrs inner rest) behind out h =
      let after = events rest ++ (ok close_tag ∷ behind) in
      let split_up =
        append_assoc (events inner) (ok close_tag ∷ events rest) (ok close_tag ∷ behind) in
      let child = insert_attributes from_utf8 attrs end in
      let short : length (events inner ++ (ok close_tag ∷ after)) < fuel =
        omega (arith, ap length split_up) in
      rw (split_up, decode_record-fields_of fuel inner after child short)
        (decode_record-fields_of fuel rest behind
          (insert_first_only out (local_name from_utf8 name) (simplify (fields_of inner child)))
          (omega (arith, length-append (events inner) (ok close_tag ∷ after))))
  decode_record-fields_of (suc fuel) (empty_element name attrs rest) behind out h =
      decode_record-fields_of fuel rest behind
        (insert_first_only out (local_name from_utf8 name) (empty_value from_utf8 attrs))
        (omega arith)
  decode_record-fields_of (suc fuel) (text_node txt rest) behind out h =
      decode_record-fields_of fuel rest behind (insert_text from_utf8 txt out) (omega arith)
  decode_record-fields_of (suc fuel) (skipped rest) behind out h =
      decode_record-fields_of fuel rest behind out (omega arith)
