-- ===== src/Sources/Request/Laws.antt =====
-- The references that the registry gives are requests that a client may send back.
use mathlib.Core.Path.{subst}
use migration_platform.Int.{pos}
use migration_platform.Prelude.{
  ℕ, ◌<◌, ◌^◌, ◌≡◌, ◌≢◌, Option, none, some, [], ◌∷◌, ok, arith, >>=-eq-ok, ok_or-eq-ok, ok_or,
  Option-cases, inl, inr,
}
use migration_platform.Text.{Str, lit, str_eq}
use migration_platform.Json.{
  neg_int, float, Value, null, bool, number, string, array, pos_int, object, Fields, get_field,
  as_i64, as_object, as_str,
}
use migration_platform.Sources.Types.{
  SourceRequest, by_id, stored_object, from_connector, RegisteredSource, resolved_connector,
}
use migration_platform.Sources.Registry.{object_ref, source_ref}
use migration_platform.Sources.Request.{
  or_else, or_blank, str_field, checked_connector, required_field, extra_of, positive_id,
  parse_source_id, refuse_keys, connector_id_of, check_extra, parse_connector, parse_kind,
  parse_described, parse_source_request, parse_object,
}

positive_id-pos : (n : ℕ) → 0 < n → n < 2 ^ 63 → positive_id (number (pos_int n)) ≡ some n
unfolding positive_id as_i64
positive_id-pos n h k = ground arith

module _ (debug_text : Str → Str) where
  -- The reference of a registered source names it by its id.
  pub parse-object_ref :
      (r : RegisteredSource)
      → 0 < r.id
      → r.id < 2 ^ 63
      → parse_source_request debug_text (object_ref r) ≡ ok (by_id r.id)
  unfolding parse_source_request parse_source_id object_ref get_field as_object str_eq
  parse-object_ref r h k = rw (positive_id-pos r.id h k)

  -- The reference of a connector with accepted options names it with those.
  pub parse-connector_ref :
      (id : ℕ) (kind : Str) (extra : Fields)
      → 0 < id
      → id < 2 ^ 63
      → check_extra extra ≡ ok tt
      → parse_source_request debug_text (source_ref (resolved_connector id kind extra))
        ≡ ok (from_connector id extra)
  unfolding parse_source_request parse_described refuse_keys connector_id_of parse_kind
      parse_connector source_ref get_field as_object str_eq as_str
  parse-connector_ref id kind extra h k e = rw (positive_id-pos id h k, e)

-- What an accepted request carries.
abbrev pub Carries : SourceRequest → Type 0
Carries (by_id id) = (0 < id) × (id < 2 ^ 63)
Carries (stored_object bucket key) = (bucket ≢ []) × (key ≢ [])
Carries (from_connector id extra) = (0 < id) × (id < 2 ^ 63) × (check_extra extra ≡ ok tt)

as_i64-pos : (v : Value) (n : ℕ) → as_i64 v ≡ some (pos n) → n < 2 ^ 63
unfolding as_i64
as_i64-pos (number (pos_int m)) n h = ground arith
as_i64-pos (number (neg_int m)) n h = cc h
as_i64-pos (number (float b)) n h = cc h
as_i64-pos (object fs) n h = cc h
as_i64-pos (array vs) n h = cc h
as_i64-pos (string s) n h = cc h
as_i64-pos (bool b) n h = cc h
as_i64-pos null n h = cc h

positive_id-Carries : (v : Value) (n : ℕ) → positive_id v ≡ some n → (0 < n) × (n < 2 ^ 63)
unfolding positive_id
positive_id-Carries v n h = elim (Option-cases (as_i64 v)) [
  | inl e ↦ absurd (ground arith)
  | inr (z, e) ↦ ground (arith, as_i64-pos v n)
]

connector_id_of-Carries :
    (o : Option Value) (n : ℕ) → checked_connector o ≡ ok (some n) → (0 < n) × (n < 2 ^ 63)
connector_id_of-Carries none n h = absurd (ground arith)
connector_id_of-Carries (some v) n h =
    let (id, e, rest) = >>=-eq-ok (ok_or (positive_id v) _) _ h in
    ground (arith, positive_id-Carries v id (ok_or-eq-ok _ _ e))

required_field-nonempty : (name s : Str) (obj : Fields) → required_field name obj ≡ ok s → s ≢ []
unfolding required_field
required_field-nonempty name s obj h = ground (arith, h)

parse_object-Carries :
    (obj : Fields) (req : SourceRequest) → parse_object obj ≡ ok req → Carries req
unfolding parse_object
parse_object-Carries obj req h =
    let (bucket, e, h₁) = >>=-eq-ok (required_field (lit "bucket") obj) _ h in
    let (key, e', h₂) = >>=-eq-ok (required_field (lit "key") obj) _ h₁ in
    let same : stored_object bucket key ≡ req = ground arith in
    subst Carries same (
      required_field-nonempty (lit "bucket") bucket obj e,
      required_field-nonempty (lit "key") key obj e',
    )

parse_connector-Carries :
    (id : ℕ) (obj : Fields) (req : SourceRequest)
    → (0 < id) × (id < 2 ^ 63)
    → parse_connector id obj ≡ ok req
    → Carries req
unfolding parse_connector
parse_connector-Carries id obj req p h =
    let (extra, e, h₁) = >>=-eq-ok (extra_of (get_field (lit "extra") obj)) _ h in
    let (u, checked, h₂) = >>=-eq-ok (check_extra extra) _ h₁ in
    let same : from_connector id extra ≡ req = ground arith in
    subst Carries same (p.0, p.1, checked)

module _ (debug_text : Str → Str) where
  parse_kind-Carries :
      (kind : Str) (o : Option Value) (c : Option ℕ) (obj : Fields) (req : SourceRequest)
      → checked_connector o ≡ ok c
      → parse_kind debug_text kind c obj ≡ ok req
      → Carries req
  unfolding parse_kind
  parse_kind-Carries kind o none obj req p h = ground (arith, parse_object-Carries obj req)
  parse_kind-Carries kind o (some id) obj req p h = ground (
    arith,
    parse_object-Carries obj req,
    parse_connector-Carries id obj req (connector_id_of-Carries o id p),
  )

  parse_described-Carries :
      (obj : Fields) (req : SourceRequest) → parse_described debug_text obj ≡ ok req → Carries req
  unfolding parse_described connector_id_of
  parse_described-Carries obj req h =
      let asked =
        or_else (get_field (lit "connector_id") obj) (get_field (lit "connectorId") obj) in
      let (u, e₁, h₁) =
        >>=-eq-ok (refuse_keys (lit "path" ∷ lit "url" ∷ lit "secret" ∷ []) obj) _ h in
      let (c, e₂, h₂) = >>=-eq-ok (checked_connector asked) _ h₁ in
      parse_kind-Carries (or_blank (str_field (lit "type") obj)) asked c obj req e₂ h₂

  parse_source_id-Carries :
      (v : Value) (req : SourceRequest) → parse_source_id v ≡ ok req → Carries req
  unfolding parse_source_id
  parse_source_id-Carries v req h =
      let (id, e, h₁) = >>=-eq-ok (ok_or (positive_id v) _) _ h in
      let same : by_id id ≡ req = ground arith in
      subst Carries same (positive_id-Carries v id (ok_or-eq-ok _ _ e))

  -- A request that is accepted carries a positive id that an i64 holds, a bucket and a key that are
  -- not empty, or such an id with options that are all allowed.
  pub parse_source_request-Carries :
      (v : Value) (req : SourceRequest) → parse_source_request debug_text v ≡ ok req → Carries req
  unfolding parse_source_request
  parse_source_request-Carries v req h =
      let (obj, e, h₁) = >>=-eq-ok (ok_or (as_object v) _) _ h in
      elim (Option-cases (get_field (lit "source_id") obj)) [
        | inr (x, g) ↦ parse_source_id-Carries x req (rw g at h₁)
        | inl g ↦ parse_described-Carries obj req (rw g at h₁)
      ]
