-- ===== src/Jobs/Retries.antt =====
-- apps/api/src/routes/jobs.rs: retrying one row or all failed rows of a finished job, and exporting
-- its results again. A handler gives its answer, and the request that it sent to the bridge, if any.
use migration_platform.Prelude.{
  ℕ, ◌++◌, Bool, true, false, not, ◌&&◌, Option, none, some, List, [], ◌∷◌, ok, err, ◌>>=◌, ◌>>◌,
  ensure, ok_or, map_err, ◌==◌, if◌then◌else◌,
}
use migration_platform.Text.{Str, lit, decimal}
use migration_platform.Json.{Value, bool, number, pos_int, string, object, field, end}
use migration_platform.Api.{ApiError, ApiResult, not_found, conflict, external, bad_request}
use migration_platform.Jobs.Types.{
  pending, running, paused, RowStatus, status_text, Job, DataRow, Db, BridgeError, already_running,
  workflow_not_found, unreached, broken, Call, operators, require_role, find_job,
}
use migration_platform.Jobs.Actions.{cancellable, is_one_of, is_failed, is_unresolved, count_rows}

pub record StartRequest : Type 0 where
  pub workflow_id : Str
  pub workflow_type : Str
  pub input : Value

pub record RetryOptions : Type 0 where
  pub from_start : Bool
  pub confirm_not_applied : Bool

pub record RetryTarget : Type 0 where
  pub workflow_id : Str
  pub rule_template_id : ℕ
  pub rule_template_version : ℕ

abbrev natural : ℕ → Value
natural n = number (pos_int n)

abbrev is_busy : ℕ → Job → Str → ApiError
is_busy id job hint =
    conflict (lit "job " ++ (decimal id ++ (lit " is " ++ (status_text job.status ++ hint))))

unfoldable pub retry_target : ℕ → ℕ → Db → ApiResult RetryTarget
retry_target org id db = do
  job ← ok_or (find_job org id db.jobs) not_found
  workflow_id ← ok_or job.workflow_id not_found
  ensure (not (is_one_of (pending ∷ running ∷ paused ∷ []) job.status))
      (is_busy id job (lit "; retry rows after it finishes"))
  ok (record {
    workflow_id = workflow_id;
    rule_template_id = job.rule_template_id;
    rule_template_version = job.rule_template_version;
  })

abbrev retry_workflow_id : Str → Str
retry_workflow_id job_workflow_id = job_workflow_id ++ lit "-retry"

abbrev export_workflow_id : Str → Str
export_workflow_id job_workflow_id = job_workflow_id ++ lit "-export"

unfoldable pub start_error : Str → BridgeError → ApiError
start_error busy (already_running t) = conflict busy
start_error busy (workflow_not_found t) = external (lit "temporal: " ++ t)
start_error busy (unreached t) = external (lit "temporal: " ++ t)
start_error busy (broken t) = external (lit "temporal: " ++ t)

-- The call of the bridge, and its error as the handler's.
unfoldable pub send : Call → Str → StartRequest → Value → ApiResult Value × Option StartRequest
send call busy req answer = (
  do run ← map_err (start_error busy) (call.start req.workflow_id req.workflow_type); ok answer,
  some req,
)

-- SELECT status FROM job_rows WHERE job_id = ? AND row_index = ?
unfoldable pub find_row : ℕ → ℕ → List DataRow → Option RowStatus
find_row id index [] = none
find_row id index (r ∷ rs) =
    let rest = find_row id index rs in
    if (r.job_id == id) && (r.row_index == index) then some r.row_status else rest

abbrev pub unresolved_row : Option RowStatus → Bool
unresolved_row none = false
unresolved_row (some s) = is_unresolved s

unfoldable pub retry_row_request : ℕ → ℕ → ℕ → RetryOptions → RetryTarget → StartRequest
retry_row_request org id index opts target = record {
  workflow_id = retry_workflow_id target.workflow_id;
  workflow_type = lit "RetryRowWorkflow";
  input = object (
      field (lit "orgId") (natural org) (
        field (lit "jobId") (natural id) (
          field (lit "ruleTemplateId") (natural target.rule_template_id) (
            field (lit "ruleTemplateVersion") (natural target.rule_template_version) (
              field (lit "sourceRef") (object end) (
                field (lit "retryRow")
                  (object (
                    field (lit "jobId") (natural id) (
                      field (lit "rowIndex") (natural index) (
                        field (lit "fromStart") (bool opts.from_start)
                          (field (lit "confirmNotApplied") (bool opts.confirm_not_applied) end)))))
                  end))))));
}

unfoldable pub retry_row_answer : ℕ → ℕ → RetryOptions → Value
retry_row_answer id index opts = object (
    field (lit "job_id") (natural id) (
      field (lit "row_index") (natural index) (
        field (lit "queued") (bool true) (
          field (lit "from_start") (bool opts.from_start)
            (field (lit "confirm_not_applied") (bool opts.confirm_not_applied) end)))))

-- What stands before the bridge in `retry_row`.
unfoldable pub check_retry_row : Call → ℕ → ℕ → RetryOptions → Db → ApiResult RetryTarget
check_retry_row call id index opts db = do
  require_role call.role operators
  call.gate
  target ← retry_target call.org id db
  ensure (not (unresolved_row (find_row id index db.rows) && not opts.confirm_not_applied)) (
      conflict (
        lit "row "
        ++ (decimal index
            ++ lit
                " is unresolved: the destination may already have applied it. Check the destination, then retry with confirm_not_applied=true if it did not")))
  ok target

abbrev retry_busy : Str
retry_busy = lit "a retry of this job is already running"

unfoldable pub retry_row : Call → ℕ → ℕ → RetryOptions → Db → ApiResult Value × Option StartRequest
retry_row call id index opts db = elim (check_retry_row call id index opts db) [
  | err e ↦ (err e, none)
  | ok target ↦
      send call retry_busy (retry_row_request call.org id index opts target)
        (retry_row_answer id index opts)
]

unfoldable pub check_retry_all : Call → ℕ → RetryOptions → Db → ApiResult RetryTarget
check_retry_all call id opts db = do
  require_role call.role operators
  call.gate
  ensure (not opts.confirm_not_applied)
      (bad_request (lit "confirm_not_applied is decided per row; use the single-row retry"))
  retry_target call.org id db

unfoldable pub retry_all_request : ℕ → ℕ → RetryOptions → RetryTarget → StartRequest
retry_all_request org id opts target = record {
  workflow_id = retry_workflow_id target.workflow_id;
  workflow_type = lit "RetryFailedRowsWorkflow";
  input = object (
      field (lit "orgId") (natural org) (
        field (lit "jobId") (natural id) (
          field (lit "ruleTemplateId") (natural target.rule_template_id) (
            field (lit "ruleTemplateVersion") (natural target.rule_template_version)
              (field (lit "fromStart") (bool opts.from_start) end)))));
}

abbrev retried : ℕ → ℕ → Value
retried id n = object (field (lit "job_id") (natural id) (field (lit "retried") (natural n) end))

unfoldable pub retry_all_failed :
    Call → ℕ → RetryOptions → Db → ApiResult Value × Option StartRequest
retry_all_failed call id opts db = elim (check_retry_all call id opts db) [
  | err e ↦ (err e, none)
  | ok target ↦
      let n = count_rows is_failed id db.rows in
      if n == 0
      then (ok (retried id 0), none)
      else send call retry_busy (retry_all_request call.org id opts target) (retried id n)
]

-- The job's workflow, if the job is finished.
unfoldable pub check_retry_export : Call → ℕ → Db → ApiResult Str
check_retry_export call id db = do
  require_role call.role operators
  job ← ok_or (find_job call.org id db.jobs) not_found
  job_workflow_id ← ok_or job.workflow_id not_found
  ensure (not (is_one_of cancellable job.status))
      (is_busy id job (lit "; its results are exported when it finishes"))
  ok job_workflow_id

unfoldable pub retry_export : Call → ℕ → Db → ApiResult Value × Option StartRequest
retry_export call id db = elim (check_retry_export call id db) [
  | err e ↦ (err e, none)
  | ok job_workflow_id ↦
      let workflow_id = export_workflow_id job_workflow_id in
      send call (lit "an export of job " ++ (decimal id ++ lit " is already running"))
        (record {
          workflow_id = workflow_id;
          workflow_type = lit "ExportResultsWorkflow";
          input = object (field (lit "jobId") (natural id) end);
        })
        (object
          (field (lit "job_id") (natural id) (field (lit "workflow_id") (string workflow_id) end)))
]
