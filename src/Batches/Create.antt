-- ===== src/Batches/Create.antt =====
-- apps/api/src/routes/batches.rs: creating a batch from a registered archive and starting its workflow.
-- The text that `Debug` prints is an argument.
pub mod Laws
use migration_platform.Prelude.{
  ℕ, ◌+◌, ◌++◌, Bool, true, false, Option, none, some, List, [], ◌∷◌, Result, ok, err, ◌>>=◌, ◌>>◌,
  ensure, ok_or, ◌==◌, if◌then◌else◌,
}
use migration_platform.Text.{Str, lit, str_eq, decimal}
use migration_platform.Time.{Instant}
use migration_platform.Json.{Value, null, number, pos_int, string, object, end, field}
use migration_platform.Api.{ApiResult, bad_request, external, database}
use migration_platform.Sources.Types.{RegisteredSource, resolved_object, Registry}
use migration_platform.Sources.Request.{parse_source_request}
use migration_platform.Sources.Registry.{
  resolve_object, require_connector, format_from_filename, source_ref,
}
use migration_platform.Jobs.Types.{operators, require_role, BridgeError, bridge_text}
use migration_platform.Templates.Table.{AuditEntry}
use migration_platform.Batches.Types.{
  pending, running, failed, Batch, World, Caller, find_batch, update_batches,
}

pub record BatchCreate : Type 0 where
  pub source_ref : Value
  pub connector_id : Option ℕ

abbrev name_or : Option Str → Str → Str
name_or none d = d
name_or (some s) d = s

unfoldable pub archive_name : RegisteredSource → Str
archive_name src = name_or src.filename src.object_key

unfoldable pub check_connector : ℕ → Option ℕ → Registry → ApiResult (Unit {0})
check_connector org none registry = ok tt
check_connector org (some id) registry = require_connector org id registry >>= λ kind. ok tt

abbrev connector_value : Option ℕ → Value
connector_value none = null
connector_value (some id) = number (pos_int id)

abbrev size_or_zero : Option ℕ → ℕ
size_or_zero none = 0
size_or_zero (some n) = n

unfoldable pub batch_input : ℕ → ℕ → BatchCreate → RegisteredSource → Value
batch_input org id req src = object (
    field (lit "orgId") (number (pos_int org)) (
      field (lit "batchId") (number (pos_int id)) (
        field (lit "connectorId") (connector_value req.connector_id) (
          field (lit "sourceId") (number (pos_int src.id)) (
            field (lit "bucket") (string src.bucket) (
              field (lit "key") (string src.object_key) (
                field (lit "etag") (string (name_or src.etag []))
                  (field (lit "size") (number (pos_int (size_or_zero src.size_bytes))) end))))))))

unfoldable pub workflow_id : Caller → Str
workflow_id c = lit "batch-" ++ (decimal c.org ++ (lit "-" ++ c.uuid))

unfoldable pub new_batch : Caller → ℕ → BatchCreate → RegisteredSource → Batch
unfolding workflow_id
new_batch c id req src = record {
  id = id;
  org_id = c.org;
  schedule_id = none;
  connector_id = req.connector_id;
  batch_key = none;
  source_ref = source_ref (resolved_object src);
  status = pending;
  on_stage_failure = lit "stop";
  manifest_json = none;
  temporal_workflow_id = some (workflow_id c);
  temporal_run_id = none;
  error_message = none;
  quarantine_ref = none;
  started_at = some c.now;
  finished_at = none;
  created_at = c.now;
  updated_at = c.now;
}

unfoldable pub set_failed : Instant → Str → Batch → Batch
set_failed now message b = record b {
  status = failed;
  finished_at = some now;
  error_message = some message;
  updated_at = now;
}

unfoldable pub set_running : Instant → Str → Batch → Batch
set_running now run_id b = record b {
  status = running;
  temporal_run_id = some run_id;
  updated_at = now;
}

unfoldable pub record_audit : Caller → Batch → World → ApiResult Batch × World
record_audit c b w = elim c.audit_answer [
  | err e ↦ (err e, w)
  | ok u ↦ (
    ok b,
    record w {
      audit =
          record {
            org_id = c.org;
            actor = c.sub;
            entity = lit "batch";
            entity_id = decimal b.id;
            action = lit "create";
          }
          ∷ w.audit;
    },
  )
]

-- What follows the answer of the bridge, on the tables as they are then.
unfoldable pub judge_start : Caller → ℕ → Result BridgeError Str → World → ApiResult Batch × World
unfolding set_failed set_running record_audit
judge_start c id (err e) w = (
  err (external (lit "temporal: " ++ bridge_text e)),
  record w {
    batches = update_batches id (set_failed c.now (lit "temporal: " ++ bridge_text e)) w.batches;
  },
)
judge_start c id (ok run_id) w =
    let stored = update_batches id (set_running c.now run_id) w.batches in
    elim (find_batch (λ b. b.id == id) stored) [
      | none ↦ (err (database (lit "no row")), record w { batches = stored })
      | some row ↦ record_audit c row (record w { batches = stored })
    ]

unfoldable pub insert_batch : Batch → World → World
insert_batch b w = record w { batches = b ∷ w.batches; next_id = w.next_id + 1 }

unfoldable pub start_batch :
    Caller → BatchCreate → RegisteredSource → World → ApiResult Batch × World
unfolding insert_batch
start_batch c req src w =
    judge_start c w.next_id
      (c.start (workflow_id c) (lit "BatchWorkflow") (batch_input c.org w.next_id req src))
      (c.others (insert_batch (new_batch c w.next_id req src) w))

module _ (debug_text : Str → Str) where
  -- The checks, and the archive that they find.
  unfoldable pub check_create : Caller → BatchCreate → Registry → ApiResult RegisteredSource
  check_create c req registry = do
    require_role c.role operators
    c.gate
    source_req ← parse_source_request debug_text req.source_ref
    source ← resolve_object c.org source_req registry
    ensure (str_eq (format_from_filename (archive_name source)) (lit "archive"))
        (bad_request (lit "batch source must be .tar.gz, .tgz, or .zip"))
    check_connector c.org req.connector_id registry
    ok source

  unfoldable pub create_batch : Caller → BatchCreate → Registry → World → ApiResult Batch × World
  create_batch c req registry w = elim (check_create c req registry) [
    | err e ↦ (err e, w)
    | ok source ↦ start_batch c req source w
  ]
