-- ===== src/Batches/Types.antt =====
-- apps/api/src/routes/batches.rs and apps/api/migrations/0003_batches.sql: the tables of batches and
-- of their stages. Ids are natural numbers.
use migration_platform.Prelude.{
  ℕ, Bool, ◌&&◌, Option, none, some, List, [], ◌∷◌, Result, ◌==◌, if◌then◌else◌,
}
use migration_platform.Text.{Str, lit}
use migration_platform.Time.{Instant}
use migration_platform.Json.{Value}
use migration_platform.Api.{ApiResult}
use migration_platform.Jobs.Types.{BridgeError}
use migration_platform.Templates.Table.{AuditEntry}

pub data BatchStatus : Type 0 where
  pending running succeeded failed partial quarantined : BatchStatus

-- `status::text`
unfoldable pub status_text : BatchStatus → Str
status_text pending = lit "pending"
status_text running = lit "running"
status_text succeeded = lit "succeeded"
status_text failed = lit "failed"
status_text partial = lit "partial"
status_text quarantined = lit "quarantined"

abbrev pub statuses : List BatchStatus
statuses = pending ∷ running ∷ succeeded ∷ failed ∷ partial ∷ quarantined ∷ []

-- `BatchRow`
pub record Batch : Type 0 where
  pub id : ℕ
  pub org_id : ℕ
  pub schedule_id : Option ℕ
  pub connector_id : Option ℕ
  pub batch_key : Option Str
  pub source_ref : Value
  pub status : BatchStatus
  pub on_stage_failure : Str
  pub manifest_json : Option Value
  pub temporal_workflow_id : Option Str
  pub temporal_run_id : Option Str
  pub error_message : Option Str
  pub quarantine_ref : Option Value
  pub started_at : Option Instant
  pub finished_at : Option Instant
  pub created_at : Instant
  pub updated_at : Instant

-- `BatchStageRow`
pub record BatchStage : Type 0 where
  pub id : ℕ
  pub batch_id : ℕ
  pub stage_index : ℕ
  pub stage_key : Str
  pub file_path : Str
  pub template_key : Str
  pub rule_template_id : Option ℕ
  pub rule_template_version : Option ℕ
  pub job_id : Option ℕ
  pub status : BatchStatus
  pub on_stage_failure : Option Str
  pub depends_on : List Str
  pub error_message : Option Str
  pub created_at : Instant
  pub updated_at : Instant

-- The tables, the next id of a batch, and the audit log, its last entry first.
pub record World : Type 0 where
  pub batches : List Batch
  pub stages : List BatchStage
  pub next_id : ℕ
  pub audit : List AuditEntry

-- What the handler that creates a batch is called with: the claims, the gate of the license, the
-- clock, the text of a new UUID, what the bridge answers to the start of a workflow, what others do to
-- the tables while the handler waits for it, and whether the audit log takes an entry.
pub record Caller : Type 0 where
  pub org : ℕ
  pub role : Str
  pub sub : Str
  pub gate : ApiResult (Unit {0})
  pub now : Instant
  pub uuid : Str
  pub start : Str → Str → Value → Result BridgeError Str
  pub others : World → World
  pub audit_answer : ApiResult (Unit {0})

-- WHERE id = ? AND org_id = ?
unfoldable pub is_batch : ℕ → ℕ → Batch → Bool
is_batch org id b = (b.id == id) && (b.org_id == org)

unfoldable pub find_batch : (Batch → Bool) → List Batch → Option Batch
find_batch p [] = none
find_batch p (b ∷ bs) = let rest = find_batch p bs in if p b then some b else rest

-- UPDATE batches SET … WHERE id = ?
unfoldable pub update_batches : ℕ → (Batch → Batch) → List Batch → List Batch
update_batches id f [] = []
update_batches id f (b ∷ bs) = (if b.id == id then f b else b) ∷ update_batches id f bs
