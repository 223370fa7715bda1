-- ===== src/Jobs/Create.antt =====
-- apps/api/src/routes/jobs.rs: creating a job from a published template and a source. The id of the
-- job is the next of its sequence; the text that `Debug` prints and the text of a new UUID are
-- arguments.
pub mod Laws
use migration_platform.Prelude.{
  ℕ, ◌++◌, Bool, true, false, ◌&&◌, Option, none, some, List, [], ◌∷◌, Result, ok, err, ◌>>=◌, ◌>>◌,
  ok_or, ◌==◌, if◌then◌else◌,
}
use migration_platform.Text.{Str, lit, decimal}
use migration_platform.Json.{Value, number, pos_int, object, Fields, end, field}
use migration_platform.Api.{ApiResult, bad_request, unauthorized}
use migration_platform.Sources.Types.{ResolvedSource, Registry}
use migration_platform.Sources.Request.{parse_source_request}
use migration_platform.Sources.Registry.{resolve, source_ref}
use migration_platform.Templates.Rows.{TemplateRow, is_row}
use migration_platform.Jobs.Types.{pending, Job, Db, Call, operators, require_role}
use migration_platform.Jobs.Actions.{start_job}
use migration_platform.Jobs.Retries.{StartRequest}

pub record JobCreate : Type 0 where
  pub rule_template_id : ℕ
  pub source_ref : Value

-- SELECT version FROM rule_templates WHERE id = ? AND org_id = ? AND published = true
unfoldable pub find_published : ℕ → ℕ → List TemplateRow → Option TemplateRow
unfolding is_row
find_published org id [] = none
find_published org id (r ∷ rs) =
    let rest = find_published org id rs in if is_row org id r && r.published then some r else rest

unfoldable pub new_job : Call → ℕ → JobCreate → ℕ → ℕ → ResolvedSource → Str → Job
new_job call id req version by source workflow_id = record {
  id = id;
  org_id = call.org;
  rule_template_id = req.rule_template_id;
  rule_template_version = version;
  source_ref = source_ref source;
  status = pending;
  totals = none;
  workflow_id = some workflow_id;
  run_id = none;
  started_at = none;
  paused_at = none;
  finished_at = none;
  updated_at = call.now;
  last_error = none;
  created_by = some by;
}

unfoldable pub job_input : ℕ → ℕ → ℕ → ℕ → Value → Value
job_input org id template version source = object (
    field (lit "orgId") (number (pos_int org)) (
      field (lit "jobId") (number (pos_int id)) (
        field (lit "ruleTemplateId") (number (pos_int template)) (
          field (lit "ruleTemplateVersion") (number (pos_int version))
            (field (lit "sourceRef") source end)))))

abbrev pub workflow_id_for : Call → Str → Str
workflow_id_for call uuid = lit "mig-" ++ (decimal call.org ++ (lit "-" ++ uuid))

abbrev pub sent_for : Call → ℕ → Str → JobCreate → TemplateRow → ResolvedSource → StartRequest
sent_for call id uuid req tpl source = record {
  workflow_id = workflow_id_for call uuid;
  workflow_type = lit "MigrationWorkflow";
  input = job_input call.org id req.rule_template_id tpl.version (source_ref source);
}

module _ (debug_text : Str → Str) where
  -- What the checks find: the template, who asks, and the source.
  unfoldable pub check_create :
      Call
      → Option ℕ
      → JobCreate
      → List TemplateRow
      → Registry
      → ApiResult (TemplateRow × ℕ × ResolvedSource)
  check_create call user req templates registry = do
    require_role call.role operators
    call.gate
    tpl ←
        ok_or (find_published call.org req.rule_template_id templates)
          (bad_request (lit "template not found or not published"))
    created_by ← ok_or user unauthorized
    source_req ← parse_source_request debug_text req.source_ref
    source ← resolve call.org source_req registry
    ok (tpl, created_by, source)

  -- The answer, the tables, and the workflow that was asked for.
  abbrev pub launched :
      Call
      → ℕ
      → Str
      → JobCreate
      → Db
      → ApiResult (TemplateRow × ℕ × ResolvedSource)
      → (ApiResult Job × Db) × Option StartRequest
  launched call id uuid req db (err e) = ((err e, db), none)
  launched call id uuid req db (ok (tpl, by, source)) =
      let job = new_job call id req tpl.version by source (workflow_id_for call uuid) in
      (
        start_job call id (workflow_id_for call uuid) (record db { jobs = job ∷ db.jobs }),
        some (sent_for call id uuid req tpl source),
      )

  unfoldable pub create_job :
      Call
      → Option ℕ
      → ℕ
      → Str
      → JobCreate
      → List TemplateRow
      → Registry
      → Db
      → (ApiResult Job × Db) × Option StartRequest
  create_job call user id uuid req templates registry db =
      launched call id uuid req db (check_create call user req templates registry)
