-- ===== src/Tests/Batches.antt =====
-- Batches and the listings at concrete inputs.
use migration_platform.Jobs.Listing.{sql_limit, status_filter as job_filter}
use migration_platform.Batches.Listing.{clamp_limit, list_batches, status_filter}
use migration_platform.Paging.{last_id, page, select, sort_desc}
use migration_platform.Jobs.Types.{require_role}
use migration_platform.Text.{str_eq, to_ascii_lowercase}
use migration_platform.Text.Parts.{ends_with}
use migration_platform.Json.{as_object, as_i64}
use migration_platform.Sources.Request.{parse_source_request}
use migration_platform.Sources.Registry.{resolve_object, resolve, find_source, format_from_filename}
use migration_platform.Batches.Types.{find_batch, update_batches}
use migration_platform.Batches.Create.{
  check_create, archive_name, check_connector, start_batch, judge_start, insert_batch, new_batch,
  record_audit,
}
use migration_platform.Prelude.{
  ℕ, ◌≡◌, ◌⊎◌, refl, true, ◌&&◌, none, some, [], ◌∷◌, ◌++◌, length, ok, err, arith, ◌==◌,
}
use migration_platform.Int.{pos}
use migration_platform.Text.{Str, lit}
use migration_platform.Json.{null, number, pos_int, object, end, field, get_field}
use migration_platform.Paging.{max_cursor, follow, follow_cursors}
use migration_platform.Paging.Laws.{IsListing}
use migration_platform.Api.{ApiError}
use migration_platform.Sources.Types.{Registry, RegisteredSource}
use migration_platform.Batches.Types.{Batch, World, Caller, running}
use migration_platform.Batches.Listing.{ListQuery, batches_from, list_batches-IsListing}
use migration_platform.Batches.Create.{BatchCreate, create_batch}
use migration_platform.Batches.Create.Laws.{Permitted, Started, create_batch-Permitted}
use migration_platform.Jobs.Types.{Job, Db, pending}
use migration_platform.Jobs.Listing.{JobsListQuery, jobs_from, list_jobs-IsListing}

abbrev batch : ℕ → Batch
batch id = record {
  id = id;
  org_id = 7;
  schedule_id = none;
  connector_id = none;
  batch_key = none;
  source_ref = null;
  status = running;
  on_stage_failure = lit "stop";
  manifest_json = none;
  temporal_workflow_id = none;
  temporal_run_id = none;
  error_message = none;
  quarantine_ref = none;
  started_at = none;
  finished_at = none;
  created_at = 1;
  updated_at = 1;
}

abbrev table : World
table = record { batches = batch 2 ∷ batch 5 ∷ batch 3 ∷ []; stages = []; next_id = 6; audit = [] }

abbrev every_batch : ListQuery
every_batch = record { cursor = none; limit = some (pos 1); status = none }

list_batches-IsListing_example :
    IsListing
      (λ (b : Batch). b.id)
      (λ b. (b.org_id == 7) && true)
      max_cursor
      table.batches
      (follow (λ b. b.id) 4 (batches_from 7 every_batch table) max_cursor)
unfolding status_filter
list_batches-IsListing_example =
    list_batches-IsListing 7 every_batch table max_cursor (λ v. true)
      ((omega arith, (omega arith, tt)), ((omega arith, tt), (tt, tt))) refl

pages_fall :
    follow (λ (b : Batch). b.id) 4 (batches_from 7 every_batch table) max_cursor
    ≡ batch 5 ∷ batch 3 ∷ batch 2 ∷ []
unfolding follow last_id list_batches status_filter page clamp_limit sort_desc select
pages_fall = refl

abbrev job : ℕ → Job
job id = record {
  id = id;
  org_id = 7;
  rule_template_id = 1;
  rule_template_version = 1;
  source_ref = null;
  status = pending;
  totals = none;
  workflow_id = none;
  run_id = none;
  started_at = none;
  paused_at = none;
  finished_at = none;
  updated_at = 1;
  last_error = none;
  created_by = some 3;
}

abbrev two_jobs : Db
two_jobs = record { jobs = job 2 ∷ job 5 ∷ []; rows = [] }

abbrev every_job : JobsListQuery
every_job = record { status = none; limit = some (pos 1); cursor = none }

list_jobs-IsListing_example :
    IsListing
      (λ (j : Job). j.id)
      (λ j. (j.org_id == 7) && true)
      max_cursor
      two_jobs.jobs
      (follow_cursors 3 (jobs_from 7 every_job two_jobs) max_cursor)
unfolding sql_limit job_filter
list_jobs-IsListing_example =
    list_jobs-IsListing 7 every_job two_jobs max_cursor 1 (λ v. true) ((omega arith, tt), (tt, tt))
      refl (omega arith) refl

abbrev quoted : Str → Str
quoted s = lit "\"" ++ (s ++ lit "\"")

abbrev upload : RegisteredSource
upload = record {
  id = 4;
  org_id = 7;
  bucket = lit "b";
  object_key = lit "orgs/7/a.zip";
  sha256 = none;
  etag = none;
  size_bytes = some 9;
  filename = some (lit "a.zip");
  format = some (lit "archive");
}

abbrev registry : Registry
registry = record { sources = upload ∷ []; connectors = []; next_id = 5 }

abbrev asked_for : BatchCreate
asked_for = record {
  source_ref = object (field (lit "source_id") (number (pos_int 4)) end);
  connector_id = none;
}

abbrev caller : Caller
caller = record {
  org = 7;
  role = lit "operator";
  sub = lit "3";
  gate = ok tt;
  now = 5;
  uuid = lit "u";
  start = λ workflow type input. ok (lit "run");
  others = λ w. w;
  audit_answer = ok tt;
}

create_batch-Permitted_example :
    ((why : ApiError) × (create_batch quoted caller asked_for registry table ≡ (err why, table)))
    ⊎ ((src : RegisteredSource) × Permitted quoted caller asked_for registry src
        × Started quoted caller asked_for src table
            (create_batch quoted caller asked_for registry table))
create_batch-Permitted_example =
    create_batch-Permitted quoted caller asked_for registry table (λ id w h. h)

batch_starts : length (create_batch quoted caller asked_for registry table).1.audit ≡ 1
unfolding create_batch check_create require_role str_eq parse_source_request as_object get_field
    as_i64 resolve_object resolve find_source format_from_filename ends_with to_ascii_lowercase
    archive_name check_connector start_batch judge_start insert_batch new_batch record_audit
    update_batches find_batch
batch_starts = refl
