-- ===== src/Jobs/Types.antt =====
-- apps/api/src/routes/jobs.rs, JobRow of apps/api/src/db.rs, and the enums of apps/api/migrations:
-- the tables of jobs and of their rows, what a handler is called with, and the bridge to Temporal.
-- Of a job, created_at is left out, and what the handlers here neither set nor decide by: the columns
-- that batches and schedules set (schedule_id, batch_id, batch_stage_id) and those of the results
-- (results_ref, export_status, export_error). Ids are natural numbers.
use migration_platform.Prelude.{
  ℕ, Bool, ◌&&◌, Option, none, some, List, [], ◌∷◌, Result, ok, err, any, ◌==◌, if◌then◌else◌,
}
use migration_platform.Text.{Str, lit, str_eq}
use migration_platform.Time.{Instant}
use migration_platform.Json.{Value}
use migration_platform.Api.{ApiResult, forbidden}

pub data JobStatus : Type 0 where
  pending running paused succeeded failed cancelled : JobStatus

pub data RowStatus : Type 0 where
  row_pending row_running row_succeeded row_failed row_skipped row_unresolved : RowStatus

-- `status::text`
unfoldable pub status_text : JobStatus → Str
status_text pending = lit "pending"
status_text running = lit "running"
status_text paused = lit "paused"
status_text succeeded = lit "succeeded"
status_text failed = lit "failed"
status_text cancelled = lit "cancelled"

-- The totals that a cancelled job is given.
pub record Totals : Type 0 where
  pub processed : ℕ
  pub failed_rows : ℕ
  pub unresolved : ℕ
  pub total : ℕ

pub record Job : Type 0 where
  pub id : ℕ
  pub org_id : ℕ
  pub rule_template_id : ℕ
  pub rule_template_version : ℕ
  pub source_ref : Value
  pub status : JobStatus
  pub totals : Option Totals
  pub workflow_id : Option Str
  pub run_id : Option Str
  pub started_at : Option Instant
  pub paused_at : Option Instant
  pub finished_at : Option Instant
  pub updated_at : Instant
  pub last_error : Option Str
  pub created_by : Option ℕ

-- A row of `job_rows`
pub record DataRow : Type 0 where
  pub job_id : ℕ
  pub row_index : ℕ
  pub row_status : RowStatus

pub record Db : Type 0 where
  pub jobs : List Job
  pub rows : List DataRow

-- What the Temporal client fails with, and the text of the error. `unreached` is a refused connection.
pub data BridgeError : Type 0 where
  already_running workflow_not_found unreached broken : Str → BridgeError

unfoldable pub bridge_text : BridgeError → Str
bridge_text (already_running t) = t
bridge_text (workflow_not_found t) = t
bridge_text (unreached t) = t
bridge_text (broken t) = t

-- What a handler is called with: the claims, the gate of the license, the clock, what the bridge
-- answers, and what others do to the tables while the handler waits for it.
pub record Call : Type 0 where
  pub org : ℕ
  pub role : Str
  pub gate : ApiResult (Unit {0})
  pub now : Instant
  pub start : Str → Str → Result BridgeError Str
  pub signal : Str → Str → Result BridgeError (Unit {0})
  pub cancel : Str → Result BridgeError (Unit {0})
  pub others : Db → Db

abbrev pub operators : List Str
operators = lit "admin" ∷ lit "editor" ∷ lit "operator" ∷ []

unfoldable pub require_role : Str → List Str → ApiResult (Unit {0})
require_role role required = if any (λ r. str_eq r role) required then ok tt else err forbidden

-- WHERE id = ? AND org_id = ?
unfoldable pub is_owned : ℕ → ℕ → Job → Bool
is_owned org id j = (j.id == id) && (j.org_id == org)

unfoldable pub find_job : ℕ → ℕ → List Job → Option Job
find_job org id [] = none
find_job org id (j ∷ js) =
    let rest = find_job org id js in if is_owned org id j then some j else rest

-- UPDATE jobs SET … WHERE …
unfoldable pub update_jobs : (Job → Bool) → (Job → Job) → List Job → List Job
update_jobs p f [] = []
update_jobs p f (j ∷ js) = (if p j then f j else j) ∷ update_jobs p f js

-- RETURNING …: the first row that the statement has changed.
unfoldable pub returning : (Job → Bool) → (Job → Job) → List Job → Option Job
returning p f [] = none
returning p f (j ∷ js) = let rest = returning p f js in if p j then some (f j) else rest
