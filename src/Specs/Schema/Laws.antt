-- ===== src/Specs/Schema/Laws.antt =====
-- apps/api/src/routes/specs.rs: what the resolving of references gives.
use migration_platform.Prelude.{
  ℕ, zero, suc, ◌≤◌, ◌≡◌, ◌≢◌, ◌∙◌, ◌++◌, ◌==◌, inl, inr, Bool-cases, Option-cases, [], ◌∷◌, refl,
  ap, Bool, true, false, Option, none, some, arith,
}
use migration_platform.Text.{Str, lit, strip_prefix}
use migration_platform.Json.{
  Value, null, bool, number, string, array, object, Values, nil, cons, Fields, end, field,
  get_field, as_str,
}
use migration_platform.Specs.Schema.{
  ref_of, lookup_pointer, target_of, resolve_ref, map_fields, map_values, map_children,
  resolve_schema, schema_levels,
}

abbrev is_leaf : Value → Bool
is_leaf (object fs) = false
is_leaf (array vs) = false
is_leaf null = true
is_leaf (bool b) = true
is_leaf (number n) = true
is_leaf (string s) = true

map_children-leaf : (f : Value → Value) (v : Value) → is_leaf v ≡ true → map_children f v ≡ v
unfolding map_children
map_children-leaf f null h = refl
map_children-leaf f (bool b) h = refl
map_children-leaf f (number n) h = refl
map_children-leaf f (string s) h = refl
map_children-leaf f (array vs) h = cc h
map_children-leaf f (object fs) h = cc h

ref_of-object :
    (fs : Fields) (r : Str)
    → get_field (lit "$ref") fs ≡ some (string r)
    → ref_of (object fs) ≡ some r
unfolding ref_of
ref_of-object fs r h = rw h refl

not_text : (v : Value) → ((r : Str) → v ≢ string r) → as_str v ≡ none
unfolding as_str
not_text null h = refl
not_text (bool b) h = refl
not_text (number n) h = refl
not_text (string s) h = absurd (h s refl)
not_text (array vs) h = refl
not_text (object fs) h = refl

ref_of-none :
    (fs : Fields)
    → ((r : Str) → get_field (lit "$ref") fs ≢ some (string r))
    → ref_of (object fs) ≡ none
unfolding ref_of
ref_of-none fs h = elim (Option-cases (get_field (lit "$ref") fs)) [
  | inl e ↦ rw e refl
  | inr (v, e) ↦ rw e (not_text v (λ r same. h r (e ∙ ap some same)))
]

ref_of-array : (vs : Values) → ref_of (array vs) ≡ none
unfolding ref_of
ref_of-array vs = refl

ref_of-leaf : (v : Value) → is_leaf v ≡ true → ref_of v ≡ none
unfolding ref_of
ref_of-leaf null h = refl
ref_of-leaf (bool b) h = refl
ref_of-leaf (number n) h = refl
ref_of-leaf (string s) h = refl
ref_of-leaf (array vs) h = refl
ref_of-leaf (object fs) h = cc h

module _ (pointer : Value → Str → Option Value) (spec : Value) where
  -- A chain of references, by its length, from a value to one that refers to nothing.
  pub data Leads : ℕ → Value → Value → Type 0 where
    stop : {node : Value} → target_of pointer spec node ≡ none → Leads 0 node node
    onward :
        {n : ℕ} {node next last : Value}
        → target_of pointer spec node ≡ some next
        → Leads n next last
        → Leads (suc n) node last

  resolve_ref-Leads :
      {n : ℕ} {node last : Value} (left : ℕ)
      → Leads n node last
      → n ≤ left
      → resolve_ref pointer spec left node ≡ last
  unfolding resolve_ref
  resolve_ref-Leads zero (stop h) le = refl
  resolve_ref-Leads (suc left) (stop h) le = rw (resolve_ref, h)
  resolve_ref-Leads zero (onward h rest) le = absurd (omega arith)
  resolve_ref-Leads (suc left) (onward h rest) le =
      rw (resolve_ref, h) (resolve_ref-Leads left rest (omega arith))

  -- A schema with its references replaced, by the number of levels below it that this takes. A
  -- reference is a text under "$ref". One of the form #… that leads somewhere is replaced by what it
  -- leads to, and what stands beside it is dropped; one that leads nowhere, or out of the document,
  -- stays with all that stands beside it.
  mutual
    pub data Resolved : ℕ → Value → Value → Type 0 where
      referred :
          {n : ℕ} {fs : Fields} {target out : Value} (at : Str)
          → get_field (lit "$ref") fs ≡ some (string (lit "#" ++ at))
          → pointer spec at ≡ some target
          → Resolved n target out
          → Resolved (suc n) (object fs) out
      dangling :
          {n : ℕ} {fs : Fields} (at : Str)
          → get_field (lit "$ref") fs ≡ some (string (lit "#" ++ at))
          → pointer spec at ≡ none
          → Resolved (suc n) (object fs) (object fs)
      remote :
          {n : ℕ} {fs : Fields} (r : Str)
          → get_field (lit "$ref") fs ≡ some (string r)
          → ((at : Str) → r ≢ lit "#" ++ at)
          → Resolved (suc n) (object fs) (object fs)
      leaf : {n : ℕ} {node : Value} → is_leaf node ≡ true → Resolved (suc n) node node
      of_object :
          {n : ℕ} {fs outs : Fields}
          → ((r : Str) → get_field (lit "$ref") fs ≢ some (string r))
          → ResolvedFields n fs outs
          → Resolved (suc n) (object fs) (object outs)
      of_array :
          {n : ℕ} {vs outs : Values}
          → ResolvedValues n vs outs
          → Resolved (suc n) (array vs) (array outs)

    pub data ResolvedFields : ℕ → Fields → Fields → Type 0 where
      no_fields : {n : ℕ} → ResolvedFields n end end
      one_field :
          {n : ℕ} {k : Str} {v out : Value} {fs outs : Fields}
          → Resolved n v out
          → ResolvedFields n fs outs
          → ResolvedFields n (field k v fs) (field k out outs)

    pub data ResolvedValues : ℕ → Values → Values → Type 0 where
      no_values : {n : ℕ} → ResolvedValues n nil nil
      one_value :
          {n : ℕ} {v out : Value} {vs outs : Values}
          → Resolved n v out
          → ResolvedValues n vs outs
          → ResolvedValues n (cons v vs) (cons out outs)

  Resolved-pos : {n : ℕ} {node out : Value} → Resolved n node out → 1 ≤ n
  Resolved-pos (referred at e h d) = omega arith
  Resolved-pos (dangling at e h) = omega arith
  Resolved-pos (remote r e h) = omega arith
  Resolved-pos (leaf h) = omega arith
  Resolved-pos (of_object e ds) = omega arith
  Resolved-pos (of_array ds) = omega arith

  lookup_pointer-local : (at : Str) → lookup_pointer pointer spec (lit "#" ++ at) ≡ pointer spec at
  unfolding lookup_pointer strip_prefix
  lookup_pointer-local at = refl

  lookup_pointer-remote :
      (r : Str) → ((at : Str) → r ≢ lit "#" ++ at) → lookup_pointer pointer spec r ≡ none
  unfolding lookup_pointer strip_prefix
  lookup_pointer-remote [] h = refl
  lookup_pointer-remote (c ∷ s) h = elim (Bool-cases (c == b'#')) [
    | inl hash ↦ absurd (h s (ap (λ d. d ∷ s) (ground arith)))
    | inr other ↦ rw (lookup_pointer, strip_prefix, other) refl
  ]

  mutual
    unfolding resolve_schema map_children map_fields map_values

    resolve_schema-Resolved :
        {n : ℕ} {node out : Value} (left : ℕ)
        → Resolved n node out
        → n ≤ left
        → resolve_schema pointer spec left node ≡ out
    resolve_schema-Resolved zero d le = absurd (omega (arith, Resolved-pos d))
    resolve_schema-Resolved (suc left) (referred {fs = fs} at e h d) le =
        rw (resolve_schema, ref_of-object fs _ e, lookup_pointer-local at, h)
          (resolve_schema-Resolved left d (omega arith))
    resolve_schema-Resolved (suc left) (dangling {fs = fs} at e h) le =
        rw (resolve_schema, ref_of-object fs _ e, lookup_pointer-local at, h)
    resolve_schema-Resolved (suc left) (remote {fs = fs} r e h) le =
        rw (resolve_schema, ref_of-object fs r e, lookup_pointer-remote r h)
    resolve_schema-Resolved (suc left) (leaf {node = node} h) le =
        rw (resolve_schema, ref_of-leaf node h)
          (map_children-leaf (resolve_schema pointer spec left) node h)
    resolve_schema-Resolved (suc left) (of_object {fs = fs} e ds) le =
        rw (resolve_schema, ref_of-none fs e)
          (ap object (map_fields-Resolved left ds (omega arith)))
    resolve_schema-Resolved (suc left) (of_array {vs = vs} ds) le =
        rw (resolve_schema, ref_of-array vs) (ap array (map_values-Resolved left ds (omega arith)))

    map_fields-Resolved :
        {n : ℕ} {fs outs : Fields} (left : ℕ)
        → ResolvedFields n fs outs
        → n ≤ left
        → map_fields (resolve_schema pointer spec left) fs ≡ outs
    map_fields-Resolved left no_fields le = refl
    map_fields-Resolved left (one_field d ds) le =
        cc (resolve_schema-Resolved left d le, map_fields-Resolved left ds le)

    map_values-Resolved :
        {n : ℕ} {vs outs : Values} (left : ℕ)
        → ResolvedValues n vs outs
        → n ≤ left
        → map_values (resolve_schema pointer spec left) vs ≡ outs
    map_values-Resolved left no_values le = refl
    map_values-Resolved left (one_value d ds) le =
        cc (resolve_schema-Resolved left d le, map_values-Resolved left ds le)

  -- A schema whose references, with all that they refer to, are replaced within seven levels is
  -- given with all of those replaced that lead to a place of the document, and nothing of it is cut
  -- off; other references stay, and what stands beside a replaced one is dropped.
  pub resolve_schema_complete :
      (n : ℕ) (node out : Value)
      → Resolved n node out
      → n ≤ schema_levels
      → resolve_schema pointer spec schema_levels node ≡ out
  resolve_schema_complete n node out d le = resolve_schema-Resolved schema_levels d le
