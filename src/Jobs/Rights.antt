-- ===== src/Jobs/Rights.antt =====
-- What an operation that succeeds has done, and what one that reaches the bridge was allowed to do.
use migration_platform.Prelude.{
  ℕ, ◌+◌, ◌≤◌, ◌≡◌, refl, ◌⊎◌, inl, inr, Bool, true, false, not, ◌&&◌, Option, some, List, [], ◌∷◌,
  ok, ◌>>◌, ensure, ok_or, arith, Bool-cases, Result-cases, Option-cases, >>=-eq-ok, ok_or-eq-ok,
  ensure-eq-ok, ◌≢◌, All, All-map, Has, ◌==◌,
}
use migration_platform.Text.{Str, lit}
use migration_platform.Api.{not_found}
use migration_platform.Jobs.Types.{
  JobStatus, pending, running, paused, succeeded, failed, cancelled, row_unresolved, status_text,
  Job, DataRow, Db, Call, operators, require_role, is_owned, find_job, returning,
}
use migration_platform.Text.{str_eq}
use migration_platform.Jobs.Settled.{is_finished}
use migration_platform.Jobs.Actions.{
  cancellable, is_one_of, action_target, transition, cancel_job, cancel_target, cancel_workflow,
  set_cancelled, totals_of, count_rows,
}
use migration_platform.Jobs.Retries.{
  StartRequest, RetryOptions, RetryTarget, retry_target, find_row, unresolved_row, check_retry_row,
  retry_row,
}

-- No row counts twice in the totals of a cancelled job.
pub totals_of_bound :
    (id : ℕ) (rows : List DataRow)
    → let t = totals_of id rows in t.processed + t.failed_rows + t.unresolved ≤ t.total
unfolding totals_of count_rows
totals_of_bound id [] = omega arith
totals_of_bound id (r ∷ rs) = ground (arith, totals_of_bound id rs)

returning-some :
    (p : Job → Bool) (f : Job → Job) (js : List Job) (job : Job)
    → returning p f js ≡ some job
    → (j : Job) × (p j ≡ true) × (job ≡ f j)
unfolding returning
returning-some p f [] job h = cc h
returning-some p f (j ∷ js) job h = elim (Bool-cases (p j)) [
  | inl e ↦ (j, e, ground arith)
  | inr e ↦ returning-some p f js job (ground arith)
]

transition-ok :
    (call : Call) (id : ℕ) (action : Str) (from : List JobStatus) (f : Job → Job) (db : Db)
    (job : Job)
    → (transition call id action from f db).0 ≡ ok job
    → (j : Job) × (is_owned call.org id j ≡ true) × (is_one_of from j.status ≡ true) × (job ≡ f j)
unfolding transition
transition-ok call id action from f db job h =
    let p : Job → Bool = λ j. is_owned call.org id j && is_one_of from j.status in
    elim (Option-cases (returning p f db.jobs)) [
      | inl e ↦ absurd (ground (arith, e))
      | inr (job', e) ↦
          let (j, pj, same) = returning-some p f db.jobs job' e in
          (j, ground arith, ground arith, ground (arith, e))
    ]

cancel_target-ok :
    (call : Call) (id : ℕ) (w : Option Str) (db : Db) (job : Job)
    → (cancel_target call id w db).0 ≡ ok job
    → (j : Job) × (is_owned call.org id j ≡ true)
      × (is_one_of cancellable j.status ≡ true)
      × (job ≡ set_cancelled call.now (totals_of id (call.others db).rows) j)
unfolding cancel_target
cancel_target-ok call id w db job h = elim (Result-cases (cancel_workflow call w)) [
  | inr (why, e) ↦ absurd (ground (arith, e))
  | inl (u, e) ↦
      transition-ok call id (lit "cancel") cancellable _ (call.others db) job
        (rw (e, cancel_target) at h)
]

-- A job that was cancelled belongs to the caller's organisation and was not finished; it is now
-- cancelled at the instant of the call, with totals counted from the rows as they then were.
pub cancel_job-ok :
    (call : Call) (id : ℕ) (db : Db) (job : Job)
    → (cancel_job call id db).0 ≡ ok job
    → (require_role call.role operators ≡ ok tt)
      × (job.id ≡ id)
      × (job.org_id ≡ call.org)
      × (job.status ≡ cancelled)
      × (job.finished_at ≡ some call.now)
      × (job.totals ≡ some (totals_of id (call.others db).rows))
      × ((j : Job) × (is_owned call.org id j ≡ true)
          × (is_one_of cancellable j.status ≡ true)
          × (j.run_id ≡ job.run_id))
unfolding cancel_job
cancel_job-ok call id db job h =
    elim (Result-cases (
      require_role call.role operators
      >> action_target call.org id (lit "cancel") cancellable db)) [
        | inr (why, e) ↦ absurd (ground (arith, e))
        | inl (w, e) ↦
            let (allowed, role, rest) = >>=-eq-ok (require_role call.role operators) _ e in
            let (j, owned, from, same) =
              cancel_target-ok call id w db job (rw (e, cancel_job) at h) in
            unfold set_cancelled is_owned in
            (
              role,
              ground arith,
              ground arith,
              ground arith,
              ground arith,
              ground arith,
              (j, owned, from, ground arith),
            )
      ]

others_finished : (s : JobStatus) → is_one_of cancellable s ≡ false → is_finished s ≡ true
unfolding is_one_of status_text str_eq
others_finished pending h = cc h
others_finished running h = cc h
others_finished paused h = cc h
others_finished succeeded h = refl
others_finished failed h = refl
others_finished cancelled h = refl

-- The jobs that may be retried.
retry_target-ok :
    (org id : ℕ) (db : Db) (target : RetryTarget)
    → retry_target org id db ≡ ok target
    → (job : Job) × (find_job org id db.jobs ≡ some job)
      × (job.workflow_id ≡ some target.workflow_id)
      × (is_one_of cancellable job.status ≡ false)
unfolding retry_target
retry_target-ok org id db target h =
    let (job, e₁, h₁) = >>=-eq-ok (ok_or (find_job org id db.jobs) not_found) _ h in
    let (w, e₂, h₂) = >>=-eq-ok (ok_or job.workflow_id not_found) _ h₁ in
    let (u, e₃, h₃) = >>=-eq-ok (ensure (not (is_one_of cancellable job.status)) _) _ h₂ in
    (
      job,
      ok_or-eq-ok _ _ e₁,
      ground (arith, ok_or-eq-ok _ _ e₂),
      ground (arith, ensure-eq-ok _ _ e₃),
    )

check_retry_row-ok :
    (call : Call) (id index : ℕ) (opts : RetryOptions) (db : Db) (target : RetryTarget)
    → check_retry_row call id index opts db ≡ ok target
    → (require_role call.role operators ≡ ok tt)
      × (call.gate ≡ ok tt)
      × (retry_target call.org id db ≡ ok target)
      × ((unresolved_row (find_row id index db.rows) ≡ false) ⊎ (opts.confirm_not_applied ≡ true))
unfolding check_retry_row
check_retry_row-ok call id index opts db target h =
    let (u₁, role, h₁) = >>=-eq-ok (require_role call.role operators) _ h in
    let (u₂, gate, h₂) = >>=-eq-ok call.gate _ h₁ in
    let (t, e, h₃) = >>=-eq-ok (retry_target call.org id db) _ h₂ in
    let (u₃, sure, h₄) =
      >>=-eq-ok
        (ensure (not (unresolved_row (find_row id index db.rows) && not opts.confirm_not_applied))
          _)
        _ h₃ in
    (role, gate, ground (arith, e), ground (arith, ensure-eq-ok _ _ sure))

find_job-Has :
    (org id : ℕ) (js : List Job) (job : Job)
    → find_job org id js ≡ some job
    → is_one_of cancellable job.status ≡ false
    → Has (λ j. (j.id ≡ id) × (j.org_id ≡ org) × (is_finished j.status ≡ true)) js
unfolding find_job is_owned
find_job-Has org id [] job e done = cc e
find_job-Has org id (j ∷ js) job e done = elim (Bool-cases (is_owned org id j)) [
  | inl at ↦
      let same : j ≡ job = ground arith in
      inl (ground arith, ground arith, others_finished j.status (ground arith))
  | inr away ↦ inr (find_job-Has org id js job (ground arith) done)
]

-- The primary key of `job_rows`.
abbrev pub IsKeyed : List DataRow → Type 0
IsKeyed [] = Unit
IsKeyed (r ∷ rs) = All (λ q. q.job_id ≡ r.job_id → q.row_index ≢ r.row_index) rs × IsKeyed rs

-- The row of the job is not unresolved, if there is one.
abbrev pub NotUnresolved : ℕ → ℕ → DataRow → Type 0
NotUnresolved id index r = r.job_id ≡ id → r.row_index ≡ index → r.row_status ≢ row_unresolved

find_row-NotUnresolved :
    (id index : ℕ) (rows : List DataRow)
    → IsKeyed rows
    → unresolved_row (find_row id index rows) ≡ false
    → All (NotUnresolved id index) rows
unfolding find_row
find_row-NotUnresolved id index [] keyed h = tt
find_row-NotUnresolved id index (r ∷ rs) keyed h =
    elim (Bool-cases ((r.job_id == id) && (r.row_index == index))) [
      | inl at ↦ (
        λ e₁ e₂ e₃. absurd (ground (arith, e₃)),
        All-map (λ q apart e₁ e₂ e₃. absurd (ground (arith, apart))) rs keyed.0,
      )
      | inr away ↦ (
        λ e₁ e₂ e₃. absurd (ground (arith, e₁, e₂)),
        find_row-NotUnresolved id index rs keyed.1 (ground arith),
      )
    ]

-- A retry of one row reaches the bridge only for an operator with a license, if the caller's
-- organisation has a finished job with the id, and for a row that is unresolved only if the operator
-- confirms that its operation was not applied. No two rows of a job have an index in common.
pub retry_row-allowed :
    (call : Call) (id index : ℕ) (opts : RetryOptions) (db : Db) (req : StartRequest)
    → IsKeyed db.rows
    → (retry_row call id index opts db).1 ≡ some req
    → (require_role call.role operators ≡ ok tt)
      × (call.gate ≡ ok tt)
      × Has (λ j. (j.id ≡ id) × (j.org_id ≡ call.org) × (is_finished j.status ≡ true)) db.jobs
      × (All (NotUnresolved id index) db.rows ⊎ (opts.confirm_not_applied ≡ true))
unfolding retry_row
retry_row-allowed call id index opts db req keyed h =
    elim (Result-cases (check_retry_row call id index opts db)) [
      | inr (why, e) ↦ absurd (ground (arith, e))
      | inl (target, e) ↦
          let (role, gate, t, sure) = check_retry_row-ok call id index opts db target e in
          let (job, found, w, done) = retry_target-ok call.org id db target t in
          let own = find_job-Has call.org id db.jobs job found done in
          elim sure [
            | inl settled ↦
                (role, gate, own, inl (find_row-NotUnresolved id index db.rows keyed settled))
            | inr confirmed ↦ (role, gate, own, inr confirmed)
          ]
    ]
