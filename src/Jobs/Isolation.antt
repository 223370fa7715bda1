-- ===== src/Jobs/Isolation.antt =====
-- Jobs of another organisation.
use migration_platform.Prelude.{ℕ, ◌≡◌, ◌≢◌, false, none, List, [], ◌∷◌, All, err, arith, is_ok}
use migration_platform.Text.{Str, lit}
use migration_platform.Api.{not_found}
use migration_platform.Jobs.Types.{JobStatus, running, paused, Job, Db, Call, is_owned, find_job}
use migration_platform.Jobs.Actions.{
  pausable, resumable, action_target, signal_and_record, pause_job, resume_job, cancel_job,
}
use migration_platform.Jobs.Retries.{
  RetryOptions, retry_target, check_retry_row, retry_row, check_retry_all, retry_all_failed,
  check_retry_export, retry_export,
}

-- No job of the organisation has the id.
abbrev pub IsAbsent : ℕ → ℕ → List Job → Type 0
IsAbsent org id js = All (λ j. j.id ≡ id → j.org_id ≢ org) js

find_job-none : (org id : ℕ) (js : List Job) → IsAbsent org id js → find_job org id js ≡ none
unfolding find_job is_owned
find_job-none org id [] h = ground arith
find_job-none org id (j ∷ js) h = ground (arith, h.0, find_job-none org id js h.1)

signal_and_record-none :
    (call : Call) (id : ℕ) (signal_name action : Str) (new : JobStatus) (from : List JobStatus)
    (db : Db)
    → find_job call.org id db.jobs ≡ none
    → signal_and_record call id signal_name new action from db ≡ (err not_found, db)
unfolding signal_and_record action_target
signal_and_record-none call id signal_name action new from db h =
    rw (h, signal_and_record, action_target)

pause_foreign :
    (call : Call) (id : ℕ) (db : Db)
    → find_job call.org id db.jobs ≡ none
    → (is_ok (pause_job call id db).0 ≡ false) × ((pause_job call id db).1 ≡ db)
unfolding pause_job
pause_foreign call id db h =
    ground (arith, signal_and_record-none call id (lit "pause") (lit "pause") paused pausable db h)

resume_foreign :
    (call : Call) (id : ℕ) (db : Db)
    → find_job call.org id db.jobs ≡ none
    → (is_ok (resume_job call id db).0 ≡ false) × ((resume_job call id db).1 ≡ db)
unfolding resume_job
resume_foreign call id db h =
    ground
      (arith, signal_and_record-none call id (lit "resume") (lit "resume") running resumable db h)

cancel_foreign :
    (call : Call) (id : ℕ) (db : Db)
    → find_job call.org id db.jobs ≡ none
    → (is_ok (cancel_job call id db).0 ≡ false) × ((cancel_job call id db).1 ≡ db)
unfolding cancel_job action_target
cancel_foreign call id db h = ground (arith, h)

row_foreign :
    (call : Call) (id index : ℕ) (opts : RetryOptions) (db : Db)
    → find_job call.org id db.jobs ≡ none
    → (is_ok (retry_row call id index opts db).0 ≡ false)
      × ((retry_row call id index opts db).1 ≡ none)
unfolding retry_row check_retry_row retry_target
row_foreign call id index opts db h = ground (arith, h)

all_foreign :
    (call : Call) (id : ℕ) (opts : RetryOptions) (db : Db)
    → find_job call.org id db.jobs ≡ none
    → (is_ok (retry_all_failed call id opts db).0 ≡ false)
      × ((retry_all_failed call id opts db).1 ≡ none)
unfolding retry_all_failed check_retry_all retry_target
all_foreign call id opts db h = ground (arith, h)

export_foreign :
    (call : Call) (id : ℕ) (db : Db)
    → find_job call.org id db.jobs ≡ none
    → (is_ok (retry_export call id db).0 ≡ false) × ((retry_export call id db).1 ≡ none)
unfolding retry_export check_retry_export
export_foreign call id db h = ground (arith, h)

-- An operation on an id that no job of the caller's organisation has, though one of another
-- organisation may have it, fails, changes nothing and sends no request to start a workflow.
pub foreign_job-untouched :
    (call : Call) (id index : ℕ) (opts : RetryOptions) (db : Db)
    → IsAbsent call.org id db.jobs
    → ((is_ok (pause_job call id db).0 ≡ false) × ((pause_job call id db).1 ≡ db))
      × ((is_ok (resume_job call id db).0 ≡ false) × ((resume_job call id db).1 ≡ db))
      × ((is_ok (cancel_job call id db).0 ≡ false) × ((cancel_job call id db).1 ≡ db))
      × ((is_ok (retry_row call id index opts db).0 ≡ false)
          × ((retry_row call id index opts db).1 ≡ none))
      × ((is_ok (retry_all_failed call id opts db).0 ≡ false)
          × ((retry_all_failed call id opts db).1 ≡ none))
      × ((is_ok (retry_export call id db).0 ≡ false) × ((retry_export call id db).1 ≡ none))
foreign_job-untouched call id index opts db foreign =
    let h = find_job-none call.org id db.jobs foreign in
    (
      pause_foreign call id db h,
      resume_foreign call id db h,
      cancel_foreign call id db h,
      row_foreign call id index opts db h,
      all_foreign call id opts db h,
      export_foreign call id db h,
    )
