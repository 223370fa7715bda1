-- ===== src/Jobs/Actions.antt =====
-- apps/api/src/routes/jobs.rs: starting, pausing, resuming and cancelling a job. Each handler looks
-- at the job, calls the bridge, and then updates the job under a condition on its status; between
-- the two statements the tables may change.
use migration_platform.Prelude.{
  ℕ, ◌+◌, ◌++◌, Bool, true, false, ◌&&◌, Option, none, some, List, [], ◌∷◌, Result, ok, err, ◌>>=◌,
  ◌>>◌, ensure, ok_or, any, ◌==◌, if◌then◌else◌,
}
use migration_platform.Text.{Str, lit, str_eq, decimal}
use migration_platform.Time.{Instant}
use migration_platform.Api.{ApiError, ApiResult, not_found, conflict, external, database}
use migration_platform.Jobs.Types.{
  JobStatus, pending, running, paused, succeeded, failed, cancelled, RowStatus, row_succeeded,
  row_failed, row_unresolved, status_text, Totals, Job, DataRow, Db, BridgeError, already_running,
  workflow_not_found, unreached, broken, Call, operators, require_role, is_owned, find_job,
  update_jobs, returning,
}

abbrev pub pausable : List JobStatus
pausable = running ∷ []

abbrev pub resumable : List JobStatus
resumable = paused ∷ []

abbrev pub cancellable : List JobStatus
cancellable = pending ∷ running ∷ paused ∷ []

-- `from.contains(&status)`
unfoldable pub is_one_of : List JobStatus → JobStatus → Bool
is_one_of from status = any (λ s. str_eq (status_text s) (status_text status)) from

unfoldable pub action_target : ℕ → ℕ → Str → List JobStatus → Db → ApiResult (Option Str)
action_target org id action from db = do
  job ← ok_or (find_job org id db.jobs) not_found
  ensure (is_one_of from job.status) (
      conflict (
        lit "job "
        ++ (decimal id
            ++ (lit " is "
                ++ (status_text job.status ++ (lit "; cannot " ++ (action ++ lit " it")))))))
  ok job.workflow_id

abbrev text_of_job : Option Job → Str
text_of_job none = lit "unavailable"
text_of_job (some j) = status_text j.status

unfoldable pub transition_lost : ℕ → ℕ → Str → Db → ApiError
transition_lost org id action db = conflict (
    lit "job "
    ++ (decimal id
        ++ (lit " became "
            ++ (text_of_job (find_job org id db.jobs) ++ (lit " before it could " ++ action)))))

-- An update under a condition; no row changes if the job has moved on.
unfoldable pub transition : Call → ℕ → Str → List JobStatus → (Job → Job) → Db → ApiResult Job × Db
transition call id action from f db =
    let p : Job → Bool = λ j. is_owned call.org id j && is_one_of from j.status in
    elim (returning p f db.jobs) [
      | none ↦ (err (transition_lost call.org id action db), db)
      | some job ↦ (ok job, record db { jobs = update_jobs p f db.jobs })
    ]

abbrev paused_from : JobStatus → Instant → Option Instant → Option Instant
paused_from paused now at = some now
paused_from pending now at = at
paused_from running now at = at
paused_from succeeded now at = at
paused_from failed now at = at
paused_from cancelled now at = at

unfoldable pub set_status : Instant → JobStatus → Job → Job
set_status now new j = record j {
  status = new;
  updated_at = now;
  paused_at = paused_from new now j.paused_at;
}

unfoldable pub signal_error : ℕ → BridgeError → ApiError
signal_error id (workflow_not_found t) =
    conflict (lit "job " ++ (decimal id ++ lit "'s workflow has ended; it will be reconciled"))
signal_error id (already_running t) = external (lit "temporal: " ++ t)
signal_error id (unreached t) = external (lit "temporal: " ++ t)
signal_error id (broken t) = external (lit "temporal: " ++ t)

-- The part of `signal_and_record` behind the check.
unfoldable pub signal_target :
    Call → ℕ → Str → JobStatus → Str → List JobStatus → Option Str → Db → ApiResult Job × Db
signal_target call id signal_name new_status action from none db = (err not_found, db)
signal_target call id signal_name new_status action from (some workflow_id) db =
    elim (call.signal workflow_id signal_name) [
      | err e ↦ (err (signal_error id e), call.others db)
      | ok u ↦ transition call id action from (set_status call.now new_status) (call.others db)
    ]

unfoldable pub signal_and_record :
    Call → ℕ → Str → JobStatus → Str → List JobStatus → Db → ApiResult Job × Db
signal_and_record call id signal_name new_status action from db =
    elim (action_target call.org id action from db) [
      | err e ↦ (err e, db)
      | ok workflow_id ↦ signal_target call id signal_name new_status action from workflow_id db
    ]

unfoldable pub pause_job : Call → ℕ → Db → ApiResult Job × Db
pause_job call id db = elim (require_role call.role operators) [
  | err e ↦ (err e, db)
  | ok u ↦ signal_and_record call id (lit "pause") paused (lit "pause") pausable db
]

unfoldable pub resume_job : Call → ℕ → Db → ApiResult Job × Db
resume_job call id db = elim (require_role call.role operators >> call.gate) [
  | err e ↦ (err e, db)
  | ok u ↦ signal_and_record call id (lit "resume") running (lit "resume") resumable db
]

-- count(*) FILTER (WHERE …) of the rows of a job
unfoldable pub count_rows : (RowStatus → Bool) → ℕ → List DataRow → ℕ
count_rows p id [] = 0
count_rows p id (r ∷ rs) =
    let rest = count_rows p id rs in if (r.job_id == id) && p r.row_status then rest + 1 else rest

abbrev pub is_succeeded : RowStatus → Bool
is_succeeded row_succeeded = true
is_succeeded s = false

abbrev pub is_failed : RowStatus → Bool
is_failed row_failed = true
is_failed s = false

abbrev pub is_unresolved : RowStatus → Bool
is_unresolved row_unresolved = true
is_unresolved s = false

abbrev pub any_status : RowStatus → Bool
any_status s = true

unfoldable pub totals_of : ℕ → List DataRow → Totals
totals_of id rows = record {
  processed = count_rows is_succeeded id rows;
  failed_rows = count_rows is_failed id rows;
  unresolved = count_rows is_unresolved id rows;
  total = count_rows any_status id rows;
}

unfoldable pub set_cancelled : Instant → Totals → Job → Job
set_cancelled now totals j = record j {
  status = cancelled;
  finished_at = some now;
  updated_at = now;
  totals = some totals;
}

-- The bridge may not know the workflow: then nothing runs, and the job is cancelled all the same.
unfoldable pub cancel_workflow : Call → Option Str → ApiResult (Unit {0})
cancel_workflow call none = ok tt
cancel_workflow call (some workflow_id) = elim (call.cancel workflow_id) [
  | ok u ↦ ok tt
  | err e ↦ elim e [
    | workflow_not_found t ↦ ok tt
    | already_running t ↦ err (external (lit "temporal: " ++ t))
    | unreached t ↦ err (external (lit "temporal: " ++ t))
    | broken t ↦ err (external (lit "temporal: " ++ t))
  ]
]

unfoldable pub cancel_target : Call → ℕ → Option Str → Db → ApiResult Job × Db
cancel_target call id workflow_id db = elim (cancel_workflow call workflow_id) [
  | err e ↦ (err e, call.others db)
  | ok u ↦
      let db' = call.others db in
      transition call id (lit "cancel") cancellable (set_cancelled call.now (totals_of id db'.rows))
        db'
]

unfoldable pub cancel_job : Call → ℕ → Db → ApiResult Job × Db
cancel_job call id db =
    elim (require_role call.role operators
      >> action_target call.org id (lit "cancel") cancellable db) [
        | err e ↦ (err e, db)
        | ok workflow_id ↦ cancel_target call id workflow_id db
      ]

abbrev coalesce : Option Instant → Instant → Option Instant
coalesce none now = some now
coalesce (some t) now = some t

abbrev or_running : JobStatus → JobStatus
or_running pending = running
or_running running = running
or_running paused = paused
or_running succeeded = succeeded
or_running failed = failed
or_running cancelled = cancelled

unfoldable pub record_run : Instant → Str → Job → Job
record_run now run j = record j {
  status = or_running j.status;
  run_id = some run;
  started_at = coalesce j.started_at now;
  updated_at = now;
}

unfoldable pub set_failed : Instant → Str → Job → Job
set_failed now message j = record j {
  status = failed;
  last_error = some message;
  finished_at = some now;
  updated_at = now;
}

-- `start_job` on a connection that was refused: no workflow can exist.
unfoldable pub fail_start : Instant → ℕ → Str → Db → ApiResult Job × Db
fail_start now id text db = (
  err (external (lit "temporal: " ++ text)),
  record db {
    jobs =
        update_jobs (λ j. (j.id == id) && is_one_of (pending ∷ []) j.status)
          (set_failed now (lit "workflow start failed: " ++ text)) db.jobs;
  },
)

unfoldable pub unknown_start : ℕ → Str → ApiError
unknown_start id text =
    external
      (lit "temporal: " ++ (text ++ (lit "; job " ++ (decimal id ++ lit " will be reconciled"))))

unfoldable pub judge_start : Instant → ℕ → Result BridgeError Str → Db → ApiResult Job × Db
judge_start now id (ok run) db = (
  ok_or (returning (λ j. j.id == id) (record_run now run) db.jobs) (database (lit "no row")),
  record db { jobs = update_jobs (λ j. j.id == id) (record_run now run) db.jobs },
)
judge_start now id (err (unreached t)) db = fail_start now id t db
judge_start now id (err (already_running t)) db = (err (unknown_start id t), db)
judge_start now id (err (workflow_not_found t)) db = (err (unknown_start id t), db)
judge_start now id (err (broken t)) db = (err (unknown_start id t), db)

-- The job was inserted before; the workflow may be done before its start is recorded.
unfoldable pub start_job : Call → ℕ → Str → Db → ApiResult Job × Db
start_job call id workflow_id db =
    judge_start call.now id (call.start workflow_id (lit "MigrationWorkflow")) (call.others db)
