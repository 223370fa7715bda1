-- ===== src/Jobs/Create/Laws.antt =====
-- A job is created only from what the organisation has published and owns.
use mathlib.Core.Path.{subst}
use migration_platform.Prelude.{
  ℕ, ◌≡◌, ◌⊎◌, refl, inl, inr, true, Option, none, some, List, [], ◌∷◌, ok, err, arith, >>=-eq-ok,
  ok_or, ok_or-eq-ok, Result-cases,
}
use migration_platform.Text.{Str}
use migration_platform.Api.{ApiError}
use migration_platform.Sources.Types.{SourceRequest, ResolvedSource, Registry}
use migration_platform.Sources.Request.{parse_source_request}
use migration_platform.Sources.Registry.{resolve, source_ref}
use migration_platform.Sources.Registry.Roundtrip.{Owned, resolve-Owned}
use migration_platform.Templates.Rows.{TemplateRow, is_row}
use migration_platform.Jobs.Types.{Db, Call, operators, require_role}
use migration_platform.Jobs.Retries.{StartRequest}
use migration_platform.Jobs.Create.{
  JobCreate, find_published, job_input, check_create, create_job, sent_for,
}

find_published-owned :
    (org id : ℕ) (rs : List TemplateRow) (r : TemplateRow)
    → find_published org id rs ≡ some r
    → (r.id ≡ id) × (r.org_id ≡ org) × (r.published ≡ true)
unfolding find_published is_row
find_published-owned org id [] r e = cc e
find_published-owned org id (q ∷ rs) r e = ground (arith, find_published-owned org id rs r)

-- What a job is made from: the gate is open, and the template is published by the organisation, which
-- also has the source that the request names.
pub record Permitted (debug_text : Str → Str) (call : Call) (req : JobCreate) (registry : Registry)
    (tpl : TemplateRow) (source : ResolvedSource) : Type 0 where
  pub licensed : call.gate ≡ ok tt
  pub same_template : tpl.id ≡ req.rule_template_id
  pub own_template : tpl.org_id ≡ call.org
  pub live : tpl.published ≡ true
  pub asked : SourceRequest
  pub named : parse_source_request debug_text req.source_ref ≡ ok asked
  pub found : resolve call.org asked registry ≡ ok source
  pub own_source : Owned call.org registry source

module _ (debug_text : Str → Str) where
  check_create-Permitted :
      (call : Call) (user : Option ℕ) (req : JobCreate) (templates : List TemplateRow)
      (registry : Registry) (tpl : TemplateRow) (by : ℕ) (source : ResolvedSource)
      → check_create debug_text call user req templates registry ≡ ok (tpl, by, source)
      → Permitted debug_text call req registry tpl source
  unfolding check_create
  check_create-Permitted call user req templates registry tpl by source h =
      let (u, may, h₁) = >>=-eq-ok (require_role call.role operators) _ h in
      let (g, gate, h₂) = >>=-eq-ok call.gate _ h₁ in
      let (r, e, h₃) =
        >>=-eq-ok (ok_or (find_published call.org req.rule_template_id templates) _) _ h₂ in
      let (who, e₁, h₄) = >>=-eq-ok (ok_or user _) _ h₃ in
      let (asked, e₂, h₅) = >>=-eq-ok (parse_source_request debug_text req.source_ref) _ h₄ in
      let (src, e₃, h₆) = >>=-eq-ok (resolve call.org asked registry) _ h₅ in
      let same : r ≡ tpl = ground arith in
      let same_source : src ≡ source = ground arith in
      let own =
        find_published-owned call.org req.rule_template_id templates r (ok_or-eq-ok _ _ e) in
      let made : Permitted debug_text call req registry r src = record {
        licensed = gate;
        same_template = own.0;
        own_template = own.1;
        live = own.2;
        asked = asked;
        named = e₂;
        found = e₃;
        own_source = resolve-Owned call.org asked registry src e₃;
      } in
      subst (λ s. Permitted debug_text call req registry tpl s) same_source
        (subst (λ t. Permitted debug_text call req registry t src) same made)

  -- A request to create a job either is refused, and then nothing is stored and no workflow is asked
  -- for, or it is licensed and names a published template and a source of the organisation, and then
  -- the workflow is asked for with that version and that source.
  pub create_job-Permitted :
      (call : Call) (user : Option ℕ) (id : ℕ) (uuid : Str) (req : JobCreate)
      (templates : List TemplateRow) (registry : Registry) (db : Db)
      → ((why : ApiError) × (create_job debug_text call user id uuid req templates registry db
            ≡ ((err why, db), none)))
        ⊎ ((tpl : TemplateRow) × (source : ResolvedSource) × (sent : StartRequest) × ((create_job
                debug_text call user id uuid req templates registry db).1
              ≡ some sent)
            × (sent.input
                ≡ job_input call.org id req.rule_template_id tpl.version (source_ref source))
            × Permitted debug_text call req registry tpl source)
  unfolding create_job
  create_job-Permitted call user id uuid req templates registry db =
      elim (Result-cases (check_create debug_text call user req templates registry)) [
        | inr (why, e) ↦ inl (why, rw e refl)
        | inl ((tpl, by, source), e) ↦ inr (
          tpl,
          source,
          sent_for call id uuid req tpl source,
          rw e refl,
          refl,
          check_create-Permitted call user req templates registry tpl by source e,
        )
      ]
