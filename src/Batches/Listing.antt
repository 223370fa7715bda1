-- ===== src/Batches/Listing.antt =====
-- apps/api/src/routes/batches.rs: listing the batches, and one batch with its stages.
use mathlib.Core.Path.{fun_ext}
use migration_platform.Prelude.{
  ap, ℕ, ◌<◌, ◌≡◌, suc, Bool, true, ◌&&◌, Option, none, some, List, [], ◌∷◌, length, ok, err, ◌>>=◌,
  ok_or, ◌==◌, leb, ltb, if◌then◌else◌, arith,
}
use migration_platform.Int.{ℤ, pos, negsuc}
use migration_platform.Text.{Str, lit, str_eq}
use migration_platform.Api.{ApiResult, not_found, database}
use migration_platform.Paging.{max_cursor, or_i64, page, follow}
use migration_platform.Paging.Order.{IsUnique}
use migration_platform.Paging.Laws.{IsListing, follow-IsListing}
use migration_platform.Batches.Types.{
  BatchStatus, status_text, statuses, Batch, BatchStage, World, is_batch, find_batch,
}

pub record ListQuery : Type 0 where
  pub cursor : Option ℤ
  pub limit : Option ℤ
  pub status : Option Str

-- `clamp(1, 200)`
unfoldable pub clamp_limit : ℤ → ℕ
clamp_limit (pos n) = if ltb n 1 then 1 else if ltb 200 n then 200 else n
clamp_limit (negsuc n) = 1

-- The cast of a text to the enum fails for a text that names no status.
unfoldable pub parse_status : Str → List BatchStatus → Option BatchStatus
unfolding status_text
parse_status s [] = none
parse_status s (v ∷ vs) =
    let rest = parse_status s vs in if str_eq (status_text v) s then some v else rest

unfoldable pub status_filter : Option Str → ApiResult (BatchStatus → Bool)
unfolding parse_status
status_filter none = ok (λ v. true)
status_filter (some s) = do
  wanted ←
      ok_or (parse_status s statuses) (database (lit "invalid input value for enum batch_status"))
  ok (λ v. str_eq (status_text v) (status_text wanted))

unfoldable pub list_batches : ℕ → ListQuery → World → ApiResult (List Batch)
list_batches org q w = do
  wanted ← status_filter q.status
  ok (
      page (λ b. b.id) (clamp_limit (or_i64 q.limit (pos 50))) (or_i64 q.cursor max_cursor)
        (λ b. (b.org_id == org) && wanted b.status) w.batches)

-- ORDER BY stage_index
unfoldable pub insert_stage : BatchStage → List BatchStage → List BatchStage
insert_stage s [] = s ∷ []
insert_stage s (t ∷ ts) =
    let later = t ∷ insert_stage s ts in
    if leb s.stage_index t.stage_index then s ∷ t ∷ ts else later

unfoldable pub stages_of : ℕ → List BatchStage → List BatchStage
unfolding insert_stage
stages_of id [] = []
stages_of id (s ∷ ss) =
    let rest = stages_of id ss in if s.batch_id == id then insert_stage s rest else rest

unfoldable pub get_batch : ℕ → ℕ → World → ApiResult (Batch × List BatchStage)
unfolding find_batch is_batch stages_of
get_batch org id w = do
  batch ← ok_or (find_batch (is_batch org id) w.batches) not_found
  ok (batch, stages_of id w.stages)

clamp_limit_pos : (n : ℤ) → 0 < clamp_limit n
unfolding clamp_limit
clamp_limit_pos (pos n) = ground arith
clamp_limit_pos (negsuc n) = omega arith

list_batches-page :
    (org : ℕ) (q : ListQuery) (w : World) (wanted : BatchStatus → Bool)
    → status_filter q.status ≡ ok wanted
    → list_batches org q w
      ≡ ok (
          page
            (λ b. b.id)
            (clamp_limit (or_i64 q.limit (pos 50)))
            (or_i64 q.cursor max_cursor)
            (λ b. (b.org_id == org) && wanted b.status)
            w.batches)
unfolding list_batches
list_batches-page org q w wanted h = ground arith

-- The batches of a page, for a client that asks with a cursor.
abbrev items_of : ApiResult (List Batch) → List Batch
items_of (ok bs) = bs
items_of (err e) = []

abbrev pub batches_from : ℕ → ListQuery → World → ℤ → List Batch
batches_from org q w cursor = items_of (list_batches org (record q { cursor = some cursor }) w)

batches_from-page :
    (org : ℕ) (q : ListQuery) (w : World) (wanted : BatchStatus → Bool)
    → status_filter q.status ≡ ok wanted
    → batches_from org q w ≡ (λ c.
      page
        (λ b. b.id)
        (clamp_limit (or_i64 q.limit (pos 50)))
        c
        (λ b. (b.org_id == org) && wanted b.status)
        w.batches)
batches_from-page org q w wanted h =
    fun_ext (λ c. ap items_of (list_batches-page org (record q { cursor = some c }) w wanted h))

-- A client that asks for one page of batches after another, each below the last id of the page before
-- it, is given exactly the batches of its organisation with the status that it asked for, each once,
-- in the order of falling ids, whatever limit it has set, also a negative one.
pub list_batches-IsListing :
    (org : ℕ) (q : ListQuery) (w : World) (cursor : ℤ) (wanted : BatchStatus → Bool)
    → IsUnique (λ (b : Batch). b.id) w.batches
    → status_filter q.status ≡ ok wanted
    → IsListing
        (λ (b : Batch). b.id)
        (λ b. (b.org_id == org) && wanted b.status)
        cursor
        w.batches
        (follow (λ b. b.id) (suc (length w.batches)) (batches_from org q w) cursor)
list_batches-IsListing org q w cursor wanted u h = rw (batches_from-page org q w wanted h) (
    follow-IsListing (λ b. b.id) (clamp_limit (or_i64 q.limit (pos 50)))
      (λ b. (b.org_id == org) && wanted b.status) w.batches cursor
      (clamp_limit_pos (or_i64 q.limit (pos 50))) u)
