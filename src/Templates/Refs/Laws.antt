-- ===== src/Templates/Refs/Laws.antt =====
-- The references that are collected are those of the objects inside a value, at any depth.
use migration_platform.Prelude.{
  ◌≡◌, ◌↔◌, ◌⊎◌, inl, inr, Bool, true, Option, none, some, List, [], ◌∷◌, ◌++◌, any, arith,
  Bool-cases,
}
use migration_platform.Text.{Str, str_eq, str_eq_iff, str_eq_refl}
use migration_platform.Json.{
  Value, null, bool, number, string, array, object, Values, nil, cons, Fields, end, field,
  get_field,
}
use migration_platform.Templates.Refs.{
  from_response, only_text, own_ref, collect_response_refs, collect_items, collect_fields,
}

-- An object at some depth of the value names the step under `$fromResponse`.
mutual
  pub data RefersTo (name : Str) : Value → Type 0 where
    itself :
        {fs : Fields} → get_field from_response fs ≡ some (string name) → RefersTo name (object fs)
    in_array : {vs : Values} → InItems name vs → RefersTo name (array vs)
    in_object : {fs : Fields} → InFields name fs → RefersTo name (object fs)

  pub data InItems (name : Str) : Values → Type 0 where
    first_item : {v : Value} {vs : Values} → RefersTo name v → InItems name (cons v vs)
    later_item : {v : Value} {vs : Values} → InItems name vs → InItems name (cons v vs)

  pub data InFields (name : Str) : Fields → Type 0 where
    first_field :
        {k : Str} {v : Value} {fs : Fields} → RefersTo name v → InFields name (field k v fs)
    later_field :
        {k : Str} {v : Value} {fs : Fields} → InFields name fs → InFields name (field k v fs)

abbrev pub is_in : Str → List Str → Bool
is_in name names = any (λ n. str_eq n name) names

is_in-left : (name : Str) (xs ys : List Str) → is_in name xs ≡ true → is_in name (xs ++ ys) ≡ true
is_in-left name [] ys h = cc h
is_in-left name (x ∷ xs) ys h = ground (arith, is_in-left name xs ys)

is_in-right : (name : Str) (xs ys : List Str) → is_in name ys ≡ true → is_in name (xs ++ ys) ≡ true
is_in-right name [] ys h = h
is_in-right name (x ∷ xs) ys h = ground (arith, is_in-right name xs ys h)

is_in-append :
    (name : Str) (xs ys : List Str)
    → is_in name (xs ++ ys) ≡ true
    → (is_in name xs ≡ true) ⊎ (is_in name ys ≡ true)
is_in-append name [] ys h = inr h
is_in-append name (x ∷ xs) ys h = elim (Bool-cases (str_eq x name)) [
  | inl e ↦ inl (ground arith)
  | inr e ↦ elim (is_in-append name xs ys (ground arith)) [
    | inl i ↦ inl (ground arith)
    | inr i ↦ inr i
  ]
]

own_ref-is_in :
    (name : Str) (fs : Fields)
    → get_field from_response fs ≡ some (string name)
    → is_in name (own_ref fs) ≡ true
unfolding own_ref
own_ref-is_in name fs e = rw (e, str_eq_refl name)

only_text-is_in :
    (name : Str) (o : Option Value) → is_in name (only_text o) ≡ true → o ≡ some (string name)
only_text-is_in name (some (string s)) h =
    let same = (str_eq_iff s name).0 (ground arith) in rw same
only_text-is_in name none h = cc h
only_text-is_in name (some null) h = cc h
only_text-is_in name (some (bool b)) h = cc h
only_text-is_in name (some (number n)) h = cc h
only_text-is_in name (some (array vs)) h = cc h
only_text-is_in name (some (object fs)) h = cc h

own_ref-found :
    (name : Str) (fs : Fields)
    → is_in name (own_ref fs) ≡ true
    → get_field from_response fs ≡ some (string name)
unfolding own_ref
own_ref-found name fs i = only_text-is_in name (get_field from_response fs) i

mutual
  unfolding collect_response_refs collect_items collect_fields

  collected :
      (name : Str) (v : Value) → RefersTo name v → is_in name (collect_response_refs v) ≡ true
  collected name (object fs) (itself e) =
      is_in-left name (own_ref fs) (collect_fields fs) (own_ref-is_in name fs e)
  collected name (array vs) (in_array i) = collected_item name vs i
  collected name (object fs) (in_object i) =
      is_in-right name (own_ref fs) (collect_fields fs) (collected_field name fs i)
  collected name null i = elim i [ ]
  collected name (bool b) i = elim i [ ]
  collected name (number n) i = elim i [ ]
  collected name (string s) i = elim i [ ]

  collected_item :
      (name : Str) (vs : Values) → InItems name vs → is_in name (collect_items vs) ≡ true
  collected_item name (cons v vs) (first_item i) =
      is_in-left name (collect_response_refs v) (collect_items vs) (collected name v i)
  collected_item name (cons v vs) (later_item i) =
      is_in-right name (collect_response_refs v) (collect_items vs) (collected_item name vs i)
  collected_item name nil i = elim i [ ]

  collected_field :
      (name : Str) (fs : Fields) → InFields name fs → is_in name (collect_fields fs) ≡ true
  collected_field name (field k v fs) (first_field i) =
      is_in-left name (collect_response_refs v) (collect_fields fs) (collected name v i)
  collected_field name (field k v fs) (later_field i) =
      is_in-right name (collect_response_refs v) (collect_fields fs) (collected_field name fs i)
  collected_field name end i = elim i [ ]

mutual
  unfolding collect_response_refs collect_items collect_fields

  referred :
      (name : Str) (v : Value) → is_in name (collect_response_refs v) ≡ true → RefersTo name v
  referred name (object fs) h = elim (is_in-append name (own_ref fs) (collect_fields fs) h) [
    | inl i ↦ itself (own_ref-found name fs i)
    | inr i ↦ in_object (referred_field name fs i)
  ]
  referred name (array vs) h = in_array (referred_item name vs h)
  referred name null h = absurd (ground arith)
  referred name (bool b) h = absurd (ground arith)
  referred name (number n) h = absurd (ground arith)
  referred name (string s) h = absurd (ground arith)

  referred_item :
      (name : Str) (vs : Values) → is_in name (collect_items vs) ≡ true → InItems name vs
  referred_item name nil h = absurd (ground arith)
  referred_item name (cons v vs) h =
      elim (is_in-append name (collect_response_refs v) (collect_items vs) h) [
        | inl i ↦ first_item (referred name v i)
        | inr i ↦ later_item (referred_item name vs i)
      ]

  referred_field :
      (name : Str) (fs : Fields) → is_in name (collect_fields fs) ≡ true → InFields name fs
  referred_field name end h = absurd (ground arith)
  referred_field name (field k v fs) h =
      elim (is_in-append name (collect_response_refs v) (collect_fields fs) h) [
        | inl i ↦ first_field (referred name v i)
        | inr i ↦ later_field (referred_field name fs i)
      ]

-- The names that are collected from a value are exactly those that an object at some depth of it has
-- under `$fromResponse`.
pub collect_response_refs-RefersTo :
    (name : Str) (v : Value) → (is_in name (collect_response_refs v) ≡ true) ↔ RefersTo name v
collect_response_refs-RefersTo name v = (referred name v, collected name v)
