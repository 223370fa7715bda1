-- ===== src/Jobs/Listing.antt =====
-- apps/api/src/routes/jobs.rs: listing the jobs of an organisation, and one job. The summary of the
-- source that each answer carries is left out here.
use mathlib.Core.Path.{fun_ext}
use migration_platform.Prelude.{
  ℕ, suc, ◌<◌, ◌≡◌, ap, Bool, true, ◌&&◌, Option, none, some, List, [], ◌∷◌, length, ok, err, ◌>>=◌,
  ok_or, ◌==◌, ltb, if◌then◌else◌, arith,
}
use migration_platform.Int.{ℤ, pos, negsuc}
use migration_platform.Text.{Str, lit, str_eq}
use migration_platform.Api.{ApiResult, not_found, database}
use migration_platform.Paging.{max_cursor, or_i64, page, last_id, follow_cursors}
use migration_platform.Paging.Order.{IsUnique}
use migration_platform.Paging.Laws.{IsListing, follow-IsListing, follow_cursors-follow}
use migration_platform.Jobs.Types.{
  JobStatus, pending, running, paused, succeeded, failed, cancelled, status_text, Job, Db, find_job,
}

pub record JobsListQuery : Type 0 where
  pub status : Option Str
  pub limit : Option ℤ
  pub cursor : Option ℤ

abbrev pub statuses : List JobStatus
statuses = pending ∷ running ∷ paused ∷ succeeded ∷ failed ∷ cancelled ∷ []

-- The cast of a text to the enum fails for a text that names no status.
unfoldable pub parse_status : Str → List JobStatus → Option JobStatus
unfolding status_text
parse_status s [] = none
parse_status s (v ∷ vs) =
    let rest = parse_status s vs in if str_eq (status_text v) s then some v else rest

unfoldable pub status_filter : Option Str → ApiResult (JobStatus → Bool)
unfolding parse_status
status_filter none = ok (λ v. true)
status_filter (some s) = do
  wanted ←
      ok_or (parse_status s statuses) (database (lit "invalid input value for enum job_status"))
  ok (λ v. str_eq (status_text v) (status_text wanted))

-- `min(200)`; the database refuses a negative LIMIT.
unfoldable pub sql_limit : ℤ → ApiResult ℕ
sql_limit (pos n) = ok (if ltb 200 n then 200 else n)
sql_limit (negsuc n) = err (database (lit "LIMIT must not be negative"))

-- The page, and the next cursor.
unfoldable pub list_jobs : ℕ → JobsListQuery → Db → ApiResult (List Job × Option ℕ)
list_jobs org q db = do
  limit ← sql_limit (or_i64 q.limit (pos 50))
  wanted ← status_filter q.status
  let rows =
      page (λ j. j.id) limit (or_i64 q.cursor max_cursor)
        (λ j. (j.org_id == org) && wanted j.status) db.jobs
  ok (rows, last_id (λ j. j.id) rows)

unfoldable pub get_job : ℕ → ℕ → Db → ApiResult Job
unfolding find_job
get_job org id db = ok_or (find_job org id db.jobs) not_found

list_jobs-page :
    (org : ℕ) (q : JobsListQuery) (db : Db) (limit : ℕ) (wanted : JobStatus → Bool)
    → sql_limit (or_i64 q.limit (pos 50)) ≡ ok limit
    → status_filter q.status ≡ ok wanted
    → list_jobs org q db
      ≡ ok (
        page
            (λ j. j.id)
            limit
            (or_i64 q.cursor max_cursor)
            (λ j. (j.org_id == org) && wanted j.status)
            db.jobs,
        last_id
            (λ j. j.id)
            (page
              (λ j. j.id)
              limit
              (or_i64 q.cursor max_cursor)
              (λ j. (j.org_id == org) && wanted j.status)
              db.jobs),
      )
unfolding list_jobs
list_jobs-page org q db limit wanted h k = ground arith

abbrev answer_of : ApiResult (List Job × Option ℕ) → List Job × Option ℕ
answer_of (ok answer) = answer
answer_of (err e) = ([], none)

-- The items and the next cursor of the answer to a request with a cursor.
abbrev pub jobs_from : ℕ → JobsListQuery → Db → ℤ → List Job × Option ℕ
jobs_from org q db cursor = answer_of (list_jobs org (record q { cursor = some cursor }) db)

abbrev page_of : ℕ → ℕ → (JobStatus → Bool) → Db → ℤ → List Job
page_of org limit wanted db c =
    page (λ j. j.id) limit c (λ j. (j.org_id == org) && wanted j.status) db.jobs

jobs_from-page :
    (org : ℕ) (q : JobsListQuery) (db : Db) (limit : ℕ) (wanted : JobStatus → Bool)
    → sql_limit (or_i64 q.limit (pos 50)) ≡ ok limit
    → status_filter q.status ≡ ok wanted
    → jobs_from org q db
      ≡ (λ c. (page_of org limit wanted db c, last_id (λ j. j.id) (page_of org limit wanted db c)))
jobs_from-page org q db limit wanted h k =
    fun_ext
      (λ c. ap answer_of (list_jobs-page org (record q { cursor = some c }) db limit wanted h k))

-- A client that asks for one page of jobs after another, each with the next cursor of the answer before
-- it, until an answer has none, is given exactly the jobs of its organisation with the status that it asked for, each once, in
-- the order of falling ids, if the limit that it has
-- set is not zero or less.
pub list_jobs-IsListing :
    (org : ℕ) (q : JobsListQuery) (db : Db) (cursor : ℤ) (limit : ℕ) (wanted : JobStatus → Bool)
    → IsUnique (λ (j : Job). j.id) db.jobs
    → sql_limit (or_i64 q.limit (pos 50)) ≡ ok limit
    → 0 < limit
    → status_filter q.status ≡ ok wanted
    → IsListing
        (λ (j : Job). j.id)
        (λ j. (j.org_id == org) && wanted j.status)
        cursor
        db.jobs
        (follow_cursors (suc (length db.jobs)) (jobs_from org q db) cursor)
list_jobs-IsListing org q db cursor limit wanted u h pos_limit k =
    rw
      (
        jobs_from-page org q db limit wanted h k,
        follow_cursors-follow (λ (j : Job). j.id) (suc (length db.jobs))
            (page_of org limit wanted db) cursor,
      )
      (follow-IsListing (λ j. j.id) limit (λ j. (j.org_id == org) && wanted j.status) db.jobs cursor
        pos_limit u)
