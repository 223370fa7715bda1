-- ===== src/Tests/Jobs.antt =====
-- Operations on jobs at concrete inputs.
use migration_platform.Jobs.Retries.{check_retry_row, retry_target, send}
use migration_platform.Jobs.Types.{returning, status_text}
use migration_platform.Jobs.Actions.{
  action_target, cancel_target, cancel_workflow, count_rows, transition,
}
use migration_platform.Text.{str_eq}
use migration_platform.Prelude.{
  ℕ, ◌≡◌, ◌⊎◌, refl, true, false, List, [], ◌∷◌, ◌++◌, none, some, ok, is_ok, All, Has, arith,
}
use migration_platform.Text.{Str, lit}
use migration_platform.Json.{null, number, pos_int, string, object, end, field}
use migration_platform.Sources.Types.{Registry}
use migration_platform.Templates.Rows.{TemplateRow}
use migration_platform.Jobs.Create.{JobCreate}
use migration_platform.Jobs.Types.{
  JobStatus, running, succeeded, cancelled, RowStatus, row_succeeded, row_failed, row_unresolved,
  Job, DataRow, Db, Call, operators, require_role, is_owned, find_job,
}
use migration_platform.Jobs.Actions.{
  is_one_of, pause_job, resume_job, cancel_job, totals_of, set_cancelled,
}
use migration_platform.Jobs.Retries.{
  StartRequest, RetryOptions, retry_row, retry_all_failed, retry_export, find_row,
  retry_row_request,
}
use migration_platform.Jobs.Service.{Operation, create, pause, cancel, launch, operate_all}
use migration_platform.Jobs.Laws.{operate_all-Settled}
use migration_platform.Jobs.Settled.{Settled, Settled-refl, is_finished}
use migration_platform.Jobs.Rights.{IsKeyed, NotUnresolved, retry_row-allowed}
use migration_platform.Jobs.Isolation.{IsAbsent, foreign_job-untouched}

abbrev job_at : ℕ → JobStatus → Job
job_at id status = record {
  id = id;
  org_id = 1;
  rule_template_id = 3;
  rule_template_version = 1;
  source_ref = null;
  status = status;
  totals = none;
  workflow_id = some (lit "mig");
  run_id = none;
  started_at = none;
  paused_at = none;
  finished_at = none;
  updated_at = 0;
  last_error = none;
  created_by = some 3;
}

abbrev row_at : ℕ → RowStatus → DataRow
row_at index status = record { job_id = 7; row_index = index; row_status = status }

-- Job 7 runs, job 8 is finished.
abbrev tables : Db
tables = record {
  jobs = job_at 7 running ∷ job_at 8 succeeded ∷ [];
  rows =
      row_at 0 row_succeeded
      ∷ row_at 1 row_failed
      ∷ row_at 2 row_unresolved
      ∷ record { job_id = 8; row_index = 2; row_status = row_unresolved }
      ∷ [];
}

abbrev call_of : ℕ → Call
call_of org = record {
  org = org;
  role = lit "operator";
  gate = ok tt;
  now = 5;
  start = λ workflow type. ok (lit "run");
  signal = λ workflow name. ok tt;
  cancel = λ workflow. ok tt;
  others = λ db. db;
}

abbrev quoted : Str → Str
quoted s = lit "\"" ++ (s ++ lit "\"")

abbrev asked_for : JobCreate
asked_for = record {
  rule_template_id = 5;
  source_ref = object (
      field (lit "type") (string (lit "connector"))
        (field (lit "connector_id") (number (pos_int 4)) end));
}

abbrev templates : List TemplateRow
templates =
    record {
      id = 5;
      org_id = 1;
      template_key = lit "k";
      version = 2;
      name = lit "n";
      schema_json = null;
      published = true;
      created_by = 3;
    }
    ∷ []

abbrev registry : Registry
registry = record {
  sources = [];
  connectors = record { id = 4; org_id = 1; kind = lit "salesforce" } ∷ [];
  next_id = 1;
}

abbrev calls : List (Call × Operation)
calls =
    (call_of 1, pause 7)
    ∷ (call_of 1, create (some 3) 9 (lit "u") asked_for templates registry)
    ∷ (call_of 1, cancel 7)
    ∷ (call_of 1, launch 8 (lit "mig"))
    ∷ []

operate_all-Settled_example : Settled tables.jobs (operate_all quoted calls tables).jobs
operate_all-Settled_example = operate_all-Settled quoted calls tables (
  λ db. Settled-refl db.jobs,
  (λ db. Settled-refl db.jobs, (λ db. Settled-refl db.jobs, (λ db. Settled-refl db.jobs, tt))),
)

abbrev cancelled_job : Job
cancelled_job = record (job_at 7 cancelled) {
  finished_at = some 5;
  updated_at = 5;
  totals = some (record { processed = 1; failed_rows = 1; unresolved = 1; total = 3 });
}

job_cancelled : (cancel_job (call_of 1) 7 tables).0 ≡ ok cancelled_job
unfolding cancel_job require_role str_eq action_target find_job is_owned is_one_of status_text
    cancel_target cancel_workflow transition returning set_cancelled totals_of count_rows
job_cancelled = refl

abbrev confirmed : RetryOptions
confirmed = record { from_start = false; confirm_not_applied = true }

abbrev retry_sent : StartRequest
retry_sent =
    retry_row_request 1 8 2 confirmed
      (record { workflow_id = lit "mig"; rule_template_id = 3; rule_template_version = 1 })

row_retried : (retry_row (call_of 1) 8 2 confirmed tables).1 ≡ some retry_sent
unfolding retry_row check_retry_row require_role str_eq retry_target find_job is_owned is_one_of
    status_text find_row send
row_retried = refl

rows-IsKeyed : IsKeyed tables.rows
rows-IsKeyed = ground arith

retry_row-allowed_example :
    (require_role (lit "operator") operators ≡ ok tt)
    × ((call_of 1).gate ≡ ok tt)
    × Has (λ j. (j.id ≡ 8) × (j.org_id ≡ 1) × (is_finished j.status ≡ true)) tables.jobs
    × (All (NotUnresolved 8 2) tables.rows ⊎ (confirmed.confirm_not_applied ≡ true))
retry_row-allowed_example =
    retry_row-allowed (call_of 1) 8 2 confirmed tables retry_sent rows-IsKeyed row_retried

not_owned : IsAbsent 2 7 tables.jobs
not_owned = (λ e. omega arith, (λ e. omega arith, tt))

foreign_job-untouched_example :
    ((is_ok (pause_job (call_of 2) 7 tables).0 ≡ false)
      × ((pause_job (call_of 2) 7 tables).1 ≡ tables))
    × ((is_ok (resume_job (call_of 2) 7 tables).0 ≡ false)
        × ((resume_job (call_of 2) 7 tables).1 ≡ tables))
    × ((is_ok (cancel_job (call_of 2) 7 tables).0 ≡ false)
        × ((cancel_job (call_of 2) 7 tables).1 ≡ tables))
    × ((is_ok (retry_row (call_of 2) 7 2 confirmed tables).0 ≡ false)
        × ((retry_row (call_of 2) 7 2 confirmed tables).1 ≡ none))
    × ((is_ok (retry_all_failed (call_of 2) 7 confirmed tables).0 ≡ false)
        × ((retry_all_failed (call_of 2) 7 confirmed tables).1 ≡ none))
    × ((is_ok (retry_export (call_of 2) 7 tables).0 ≡ false)
        × ((retry_export (call_of 2) 7 tables).1 ≡ none))
foreign_job-untouched_example = foreign_job-untouched (call_of 2) 7 2 confirmed tables not_owned
