-- ===== src/Jobs/Laws.antt =====
-- A finished job stays as it ended, and who may do what to a job.
use migration_platform.Prelude.{
  ℕ, ◌≡◌, ◌⊎◌, refl, inl, inr, Bool, true, false, ◌&&◌, Option, none, some, List, [], ◌∷◌, ◌++◌,
  All, Result, ok, err, ◌>>◌, arith, Result-cases, Option-cases, ◌==◌,
}
use migration_platform.Text.{Str, lit}
use migration_platform.Time.{Instant}
use migration_platform.Jobs.Types.{
  JobStatus, pending, running, paused, Job, Db, Call, BridgeError, already_running,
  workflow_not_found, unreached, broken, is_owned, returning, require_role, operators,
}
use migration_platform.Jobs.Actions.{
  pausable, resumable, cancellable, is_one_of, transition, signal_target, signal_and_record,
  set_status, pause_job, resume_job, cancel_job, cancel_target, cancel_workflow, set_cancelled,
  totals_of, record_run, set_failed, fail_start, judge_start, start_job, action_target,
}
use migration_platform.Api.{ApiResult}
use migration_platform.Sources.Types.{ResolvedSource}
use migration_platform.Templates.Rows.{TemplateRow}
use migration_platform.Jobs.Create.{
  JobCreate, new_job, workflow_id_for, launched, check_create, create_job,
}
use migration_platform.Jobs.Service.{
  Operation, create, pause, resume, cancel, launch, operate, operate_all,
}
use migration_platform.Jobs.Settled.{
  is_finished, Follows, Settled, Settled-refl, Settled-grow, Settled-trans, update-Settled,
  unfinished, from_pausable, from_resumable, from_pending,
}

-- An update of one owned job, whose status it names.
transition-Settled :
    (call : Call) (id : ℕ) (action : Str) (from : List JobStatus) (f : Job → Job) (db : Db)
    → ((s : JobStatus) → is_one_of from s ≡ true → is_finished s ≡ false)
    → ((j : Job) → ((f j).id ≡ j.id) × ((f j).org_id ≡ j.org_id))
    → Settled db.jobs (transition call id action from f db).1.jobs
unfolding transition
transition-Settled call id action from f db open_ same =
    let p : Job → Bool = λ j. is_owned call.org id j && is_one_of from j.status in
    elim (Option-cases (returning p f db.jobs)) [
      | inl e ↦ rw (e, transition) (Settled-refl db.jobs)
      | inr (job, e) ↦
          rw (e, transition)
            (update-Settled p f (λ j h. ground (arith, open_ j.status, same j)) db.jobs)
    ]

-- The table as an operation finds it: at first, or after what others did while it waited.
abbrev FollowsOn : Call → Db → Db → Type 0
FollowsOn call db db' = Settled db.jobs db'.jobs ⊎ Settled (call.others db).jobs db'.jobs

signal_target-Settled :
    (call : Call) (id : ℕ) (signal_name action : Str) (new : JobStatus) (from : List JobStatus)
    (workflow_id : Option Str) (db : Db)
    → ((s : JobStatus) → is_one_of from s ≡ true → is_finished s ≡ false)
    → FollowsOn call db (signal_target call id signal_name new action from workflow_id db).1
unfolding signal_target
signal_target-Settled call id signal_name action new from none db open_ = inl (Settled-refl db.jobs)
signal_target-Settled call id signal_name action new from (some w) db open_ =
    elim (Result-cases (call.signal w signal_name)) [
      | inr (why, e) ↦ inr (rw (e, signal_target) (Settled-refl (call.others db).jobs))
      | inl (u, e) ↦ inr (
          rw (e, signal_target)
            (transition-Settled call id action from (set_status call.now new) (call.others db) open_
              (λ j. unfold set_status in (refl, refl))))
    ]

signal_and_record-Settled :
    (call : Call) (id : ℕ) (signal_name action : Str) (new : JobStatus) (from : List JobStatus)
    (db : Db)
    → ((s : JobStatus) → is_one_of from s ≡ true → is_finished s ≡ false)
    → FollowsOn call db (signal_and_record call id signal_name new action from db).1
unfolding signal_and_record
signal_and_record-Settled call id signal_name action new from db open_ =
    elim (Result-cases (action_target call.org id action from db)) [
      | inr (why, e) ↦ inl (rw (e, signal_and_record) (Settled-refl db.jobs))
      | inl (w, e) ↦
          rw (e, signal_and_record)
            (signal_target-Settled call id signal_name action new from w db open_)
    ]

pause_job-Settled : (call : Call) (id : ℕ) (db : Db) → FollowsOn call db (pause_job call id db).1
unfolding pause_job
pause_job-Settled call id db = elim (Result-cases (require_role call.role operators)) [
  | inr (why, e) ↦ inl (rw (e, pause_job) (Settled-refl db.jobs))
  | inl (u, e) ↦
      rw (e, pause_job)
        (signal_and_record-Settled call id (lit "pause") (lit "pause") paused pausable db
          from_pausable)
]

resume_job-Settled : (call : Call) (id : ℕ) (db : Db) → FollowsOn call db (resume_job call id db).1
unfolding resume_job
resume_job-Settled call id db =
    elim (Result-cases (require_role call.role operators >> call.gate)) [
      | inr (why, e) ↦ inl (rw (e, resume_job) (Settled-refl db.jobs))
      | inl (u, e) ↦
          rw (e, resume_job)
            (signal_and_record-Settled call id (lit "resume") (lit "resume") running resumable db
              from_resumable)
    ]

cancel_target-Settled :
    (call : Call) (id : ℕ) (w : Option Str) (db : Db)
    → FollowsOn call db (cancel_target call id w db).1
unfolding cancel_target
cancel_target-Settled call id w db = elim (Result-cases (cancel_workflow call w)) [
  | inr (why, e) ↦ inr (rw (e, cancel_target) (Settled-refl (call.others db).jobs))
  | inl (u, e) ↦
      let after = call.others db in
      inr (
        rw (e, cancel_target)
          (transition-Settled call id (lit "cancel") cancellable
            (set_cancelled call.now (totals_of id after.rows)) after unfinished
            (λ j. unfold set_cancelled in (refl, refl))))
]

cancel_job-Settled : (call : Call) (id : ℕ) (db : Db) → FollowsOn call db (cancel_job call id db).1
unfolding cancel_job
cancel_job-Settled call id db =
    elim (Result-cases (
      require_role call.role operators
      >> action_target call.org id (lit "cancel") cancellable db)) [
        | inr (why, e) ↦ inl (rw (e, cancel_job) (Settled-refl db.jobs))
        | inl (w, e) ↦ rw (e, cancel_job) (cancel_target-Settled call id w db)
      ]

record_run-Follows : (now : Instant) (run : Str) (j : Job) → Follows j (record_run now run j)
unfolding record_run
record_run-Follows now run j = ground arith

judge_start-Settled :
    (now : Instant) (id : ℕ) (r : Result BridgeError Str) (db : Db)
    → Settled db.jobs (judge_start now id r db).1.jobs
unfolding judge_start fail_start
judge_start-Settled now id (ok run) db =
    update-Settled (λ j. j.id == id) (record_run now run) (λ j h. record_run-Follows now run j)
      db.jobs
judge_start-Settled now id (err (unreached t)) db =
    update-Settled (λ j. (j.id == id) && is_one_of (pending ∷ []) j.status)
      (set_failed now (lit "workflow start failed: " ++ t))
      (λ j h. unfold set_failed in ground (arith, from_pending j.status)) db.jobs
judge_start-Settled now id (err (already_running t)) db = Settled-refl db.jobs
judge_start-Settled now id (err (workflow_not_found t)) db = Settled-refl db.jobs
judge_start-Settled now id (err (broken t)) db = Settled-refl db.jobs

start_job-Settled :
    (call : Call) (id : ℕ) (w : Str) (db : Db) → FollowsOn call db (start_job call id w db).1
unfolding start_job
start_job-Settled call id w db =
    inr (judge_start-Settled call.now id (call.start w (lit "MigrationWorkflow")) (call.others db))

-- The tables in which a job was created, if it was.
abbrev Begun : Call → Db → Db → Type 0
Begun call db db' = (mid : Db) × Settled db.jobs mid.jobs × FollowsOn call mid db'

module _ (debug_text : Str → Str) where
  launched-Begun :
      (call : Call) (id : ℕ) (uuid : Str) (req : JobCreate) (db : Db)
      (checked : ApiResult (TemplateRow × ℕ × ResolvedSource))
      → Begun call db (launched debug_text call id uuid req db checked).0.1
  launched-Begun call id uuid req db (err e) =
      (db, Settled-refl db.jobs, inl (Settled-refl db.jobs))
  launched-Begun call id uuid req db (ok (tpl, by, source)) =
      let workflow_id = workflow_id_for call uuid in
      let job = new_job call id req tpl.version by source workflow_id in
      let stored : Db = record db { jobs = job ∷ db.jobs } in
      (
        stored,
        Settled-grow job db.jobs db.jobs (Settled-refl db.jobs),
        start_job-Settled call id workflow_id stored,
      )

  -- Whatever happens to the tables while an operation waits for the bridge, a job that is finished
  -- when the operation updates it keeps its status, its end and its totals.
  pub operate-Settled :
      (call : Call) (op : Operation) (db : Db) → Begun call db (operate debug_text call op db)
  unfolding operate create_job
  operate-Settled call (create user id uuid req templates registry) db =
      launched-Begun call id uuid req db (check_create debug_text call user req templates registry)
  operate-Settled call (pause id) db = (db, Settled-refl db.jobs, pause_job-Settled call id db)
  operate-Settled call (resume id) db = (db, Settled-refl db.jobs, resume_job-Settled call id db)
  operate-Settled call (cancel id) db = (db, Settled-refl db.jobs, cancel_job-Settled call id db)
  operate-Settled call (launch id w) db = (db, Settled-refl db.jobs, start_job-Settled call id w db)

  -- Under any sequence of operations, jobs being created among them, every job stays in the table,
  -- and one that is finished keeps its status, its end and its totals, as long as what runs beside the
  -- operations keeps the jobs so too; it may add jobs and change those that are not finished.
  pub operate_all-Settled :
      (calls : List (Call × Operation)) (db : Db)
      → All (λ c. (db : Db) → Settled db.jobs (c.0.others db).jobs) calls
      → Settled db.jobs (operate_all debug_text calls db).jobs
  unfolding operate_all
  operate_all-Settled [] db h = Settled-refl db.jobs
  operate_all-Settled ((call, op) ∷ rest) db h =
      let db' = operate debug_text call op db in
      let later = operate_all-Settled rest db' h.1 in
      let (mid, first, then_) = operate-Settled call op db in
      let last = (operate_all debug_text rest db').jobs in
      elim then_ [
        | inl s ↦
            Settled-trans db.jobs mid.jobs last first (Settled-trans mid.jobs db'.jobs last s later)
        | inr s ↦ Settled-trans db.jobs mid.jobs last first (
            Settled-trans mid.jobs (call.others mid).jobs last (h.0 mid)
              (Settled-trans (call.others mid).jobs db'.jobs last s later))
      ]
