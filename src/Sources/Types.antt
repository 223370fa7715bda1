-- ===== src/Sources/Types.antt =====
-- apps/api/src/sources.rs: requests, registered sources and the registry's tables. Ids come from the
-- sequences of the database and are positive.
use migration_platform.Prelude.{ℕ, Option, List, [], ◌∷◌}
use migration_platform.Text.{Str, lit}
use migration_platform.Json.{Fields}

-- `SourceRequest`
pub data SourceRequest : Type 0 where
  by_id : ℕ → SourceRequest
  stored_object : Str → Str → SourceRequest
  from_connector : ℕ → Fields → SourceRequest

pub record RegisteredSource : Type 0 where
  pub id : ℕ
  pub org_id : ℕ
  pub bucket : Str
  pub object_key : Str
  pub sha256 : Option Str
  pub etag : Option Str
  pub size_bytes : Option ℕ
  pub filename : Option Str
  pub format : Option Str

pub data ResolvedSource : Type 0 where
  resolved_object : RegisteredSource → ResolvedSource
  resolved_connector : ℕ → Str → Fields → ResolvedSource

-- A row of `connectors`, as far as it is read here.
pub record Connector : Type 0 where
  pub id : ℕ
  pub org_id : ℕ
  pub kind : Str

-- The tables, and the next value of the sequence of source ids.
pub record Registry : Type 0 where
  pub sources : List RegisteredSource
  pub connectors : List Connector
  pub next_id : ℕ

pub record NewUpload : Type 0 where
  pub org : ℕ
  pub bucket : Str
  pub key : Str
  pub sha256 : Str
  pub etag : Option Str
  pub size : ℕ
  pub filename : Str

abbrev pub connector_extra_keys : List Str
connector_extra_keys = lit "soql" ∷ lit "cursorField" ∷ lit "cursor" ∷ []

abbrev pub job_connector_kinds : List Str
job_connector_kinds = lit "salesforce" ∷ []

abbrev pub accepted : Str
accepted =
    lit
      "expected {\"source_id\": N}, an upload source_ref ({\"type\":\"minio\",\"bucket\",\"key\"} from POST /files), or {\"type\":\"connector\",\"connector_id\": N, \"extra\": {...}}"
