-- ===== src/Sources/Registry/Roundtrip.antt =====
-- From an upload, or a job's stored reference, back to the same source.
use migration_platform.Prelude.{
  ℕ, ◌<◌, ◌^◌, ◌≡◌, ap, ◌∙◌, some, ◌∷◌, ok, arith, >>=-eq-ok, ok_or, ok_or-eq-ok, ensure, any,
  Option-cases, inl, inr, ◌==◌, ◌&&◌, Has, List, [], Bool-cases,
}
use mathlib.Core.Path.{subst}
use migration_platform.Text.{Str, str_eq, str_eq_refl}
use migration_platform.Json.{Value}
use migration_platform.Sources.Types.{
  SourceRequest, by_id, stored_object, from_connector, RegisteredSource, ResolvedSource,
  resolved_object, resolved_connector, Connector, Registry, NewUpload, job_connector_kinds,
}
use migration_platform.Sources.Request.{parse_source_request}
use migration_platform.Sources.Request.Laws.{
  parse-object_ref, parse-connector_ref, parse_source_request-Carries,
}
use migration_platform.Sources.Registry.{
  find_source, lookup_object, find_connector, require_connector, resolve, refresh, new_source,
  register_upload, object_ref, source_ref, is_at,
}
use migration_platform.Sources.Registry.Laws.{
  IsSound, All-lookup, lookup-refresh, find-refresh, find-lookup, find_source-owned,
  lookup_object-owned, All-find,
}

-- The table has a connector of the organisation with the id and the kind.
abbrev pub HasConnector : ℕ → ℕ → Str → List Connector → Type 0
HasConnector org id kind = Has (λ c. (c.id ≡ id) × (c.org_id ≡ org) × (c.kind ≡ kind))

pub find_connector-HasConnector :
    (org id : ℕ) (kind : Str) (cs : List Connector)
    → find_connector org id cs ≡ some kind
    → HasConnector org id kind cs
unfolding find_connector
find_connector-HasConnector org id kind [] h = cc h
find_connector-HasConnector org id kind (c ∷ cs) h =
    elim (Bool-cases ((c.id == id) && (c.org_id == org))) [
      | inl at ↦ inl (ground arith, ground arith, ground arith)
      | inr away ↦ inr (find_connector-HasConnector org id kind cs (ground arith))
    ]

-- An object of the organisation, or a connector of it.
abbrev pub Owned : ℕ → Registry → ResolvedSource → Type 0
Owned org reg (resolved_object src) = src.org_id ≡ org
Owned org reg (resolved_connector id kind extra) = HasConnector org id kind reg.connectors

-- What a request resolves to belongs to the organisation that asked.
pub resolve-Owned :
    (org : ℕ) (req : SourceRequest) (reg : Registry) (res : ResolvedSource)
    → resolve org req reg ≡ ok res
    → Owned org reg res
unfolding resolve
resolve-Owned org (by_id id) reg res h =
    let (src, e, h₁) = >>=-eq-ok (ok_or (find_source org id reg.sources) _) _ h in
    let same : resolved_object src ≡ res = ground arith in
    subst (Owned org reg) same (find_source-owned org id reg.sources src (ok_or-eq-ok _ _ e)).1
resolve-Owned org (stored_object bucket key) reg res h =
    let (src, e, h₁) = >>=-eq-ok (ok_or (lookup_object org bucket key reg.sources) _) _ h in
    let same : resolved_object src ≡ res = ground arith in
    subst (Owned org reg) same
      (lookup_object-owned org bucket key reg.sources src (ok_or-eq-ok _ _ e))
resolve-Owned org (from_connector id extra) reg res h =
    let (kind, e, h₁) = >>=-eq-ok (require_connector org id reg) _ h in
    let (u, e₁, h₂) = >>=-eq-ok (ensure (any (λ k. str_eq k kind) job_connector_kinds) _) _ h₁ in
    let same : resolved_connector id kind extra ≡ res = ground arith in
    let known : find_connector org id reg.connectors ≡ some kind =
      unfold require_connector in ok_or-eq-ok _ _ e in
    subst (Owned org reg) same (find_connector-HasConnector org id kind reg.connectors known)

resolve-by_id :
    (org : ℕ) (src : RegisteredSource) (reg : Registry)
    → find_source org src.id reg.sources ≡ some src
    → resolve org (by_id src.id) reg ≡ ok (resolved_object src)
unfolding resolve
resolve-by_id org src reg e = rw (e, resolve)

module _ (debug_text : Str → Str) where
  -- After an upload, its reference is a request for it by id, and both this and a request for its
  -- bucket and key resolve to it, for the organisation that uploaded it.
  pub register_upload-resolve :
      (u : NewUpload) (reg : Registry)
      → IsSound reg
      → reg.next_id < 2 ^ 63
      → let (row, reg') = register_upload u reg in
        (parse_source_request debug_text (object_ref row) ≡ ok (by_id row.id))
        × (resolve u.org (by_id row.id) reg' ≡ ok (resolved_object row))
        × (resolve u.org (stored_object u.bucket u.key) reg' ≡ ok (resolved_object row))
  register_upload-resolve u reg s small =
      elim (Option-cases (lookup_object u.org u.bucket u.key reg.sources)) [
        | inl e ↦
            let row = new_source reg.next_id u in
            let found : find_source u.org row.id (row ∷ reg.sources) ≡ some row =
              unfold find_source new_source in ground arith in
            let placed : lookup_object u.org u.bucket u.key (row ∷ reg.sources) ≡ some row =
              unfold lookup_object is_at new_source in
              ground (arith, str_eq_refl u.bucket, str_eq_refl u.key) in
            unfold register_upload in
            rw (e, register_upload)
              (
                parse-object_ref debug_text row (unfold new_source in s.started)
                    (unfold new_source in small),
                unfold resolve in rw (found, resolve),
                unfold resolve in rw (placed, resolve),
              )
        | inr (old, e) ↦
            let found = find-refresh u reg.sources old s.distinct e in
            let placed = lookup-refresh u reg.sources old e in
            let bounds =
              All-lookup (λ r. (0 < r.id) × (r.id < reg.next_id)) u.org u.bucket u.key reg.sources
                old s.below e in
            unfold register_upload in
            rw (e, register_upload)
              (
                parse-object_ref debug_text (refresh u old) (unfold refresh in bounds.0)
                    (unfold refresh in omega arith),
                unfold resolve refresh in rw (found, resolve),
                unfold resolve in rw (placed, resolve),
              )
      ]

  -- The reference that is stored on a job, read again as a request, resolves to the source that it
  -- was made of.
  pub resolve-source_ref :
      (org : ℕ) (v : Value) (req : SourceRequest) (reg : Registry) (res : ResolvedSource)
      → IsSound reg
      → reg.next_id < 2 ^ 63
      → parse_source_request debug_text v ≡ ok req
      → resolve org req reg ≡ ok res
      → (req' : SourceRequest) × (parse_source_request debug_text (source_ref res) ≡ ok req')
        × (resolve org req' reg ≡ ok res)
  unfolding resolve source_ref
  resolve-source_ref org v (by_id id) reg res s small p h =
      let (src, e, h₁) = >>=-eq-ok (ok_or (find_source org id reg.sources) _) _ h in
      let found = ok_or-eq-ok _ _ e in
      let (same_id, owned) = find_source-owned org id reg.sources src found in
      let bounds =
        All-find (λ r. (0 < r.id) × (r.id < reg.next_id)) org id reg.sources src s.below found in
      let same : resolved_object src ≡ res = ground arith in
      subst
        (λ r.
          (req' : SourceRequest) × (parse_source_request debug_text (source_ref r) ≡ ok req')
          × (resolve org req' reg ≡ ok r))
        same
        (
          by_id src.id,
          parse-object_ref debug_text src bounds.0 (omega arith),
          resolve-by_id org src reg (ap (λ n. find_source org n reg.sources) same_id ∙ found),
        )
  resolve-source_ref org v (stored_object bucket key) reg res s small p h =
      let (src, e, h₁) = >>=-eq-ok (ok_or (lookup_object org bucket key reg.sources) _) _ h in
      let found = ok_or-eq-ok _ _ e in
      let bounds =
        All-lookup (λ r. (0 < r.id) × (r.id < reg.next_id)) org bucket key reg.sources src s.below
          found in
      let same : resolved_object src ≡ res = ground arith in
      subst
        (λ r.
          (req' : SourceRequest) × (parse_source_request debug_text (source_ref r) ≡ ok req')
          × (resolve org req' reg ≡ ok r))
        same
        (
          by_id src.id,
          parse-object_ref debug_text src bounds.0 (omega arith),
          resolve-by_id org src reg (find-lookup org bucket key reg.sources src s.distinct found),
        )
  resolve-source_ref org v (from_connector id extra) reg res s small p h =
      let carried = parse_source_request-Carries debug_text v (from_connector id extra) p in
      let (kind, e, h₁) = >>=-eq-ok (require_connector org id reg) _ h in
      let (u, e₁, h₂) = >>=-eq-ok (ensure (any (λ k. str_eq k kind) job_connector_kinds) _) _ h₁ in
      let same : resolved_connector id kind extra ≡ res = ground arith in
      (
        from_connector id extra,
        subst (λ r. parse_source_request debug_text (source_ref r) ≡ ok (from_connector id extra))
            same (parse-connector_ref debug_text id kind extra carried.0 carried.1 carried.2),
        h,
      )
