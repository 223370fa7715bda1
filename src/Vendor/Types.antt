-- ===== src/Vendor/Types.antt =====
-- apps/api/src/license_server.rs: the settings, the SQLite tables and the limiter's tables as one
-- state, the errors, and the requests. The database and the locks do not fail here.
use migration_platform.Prelude.{
  ℕ, Bool, not, ◌&&◌, Option, is_some, List, Result, ◌>>◌, ensure, ltb, leb,
}
use migration_platform.Text.{Str, lit, len}
use migration_platform.Time.{Instant}
use migration_platform.Json.{Value}
use migration_platform.License.Signing.{Codec}

-- `trial_days` is an i64 that `validate` keeps between 1 and 30.
pub record ServerConfig : Type 0 where
  pub signing_key_pem : Str
  pub activation_token : Str
  pub trial_days : ℕ

-- A row of `trials`; its instants are texts.
pub record TrialRecord : Type 0 where
  pub fingerprint : Str
  pub email : Option Str
  pub started_at : Str
  pub expires_at : Str
  pub product : Str
  pub version : Str
  pub last_heartbeat_at : Option Str
  pub heartbeat_count : ℕ
  pub revoked_at : Option Str
  pub revoked_reason : Option Str

-- A row of `revocations`
pub record Revocation : Type 0 where
  pub fingerprint : Str
  pub licensee : Str
  pub reason : Option Str
  pub revoked_at : Str

-- The instants of the limiter are those of a monotonic clock.
pub record ServerState : Type 0 where
  pub trials : List TrialRecord
  pub revocations : List Revocation
  pub per_fingerprint : List (Str × Instant)
  pub window_start : Instant
  pub window_count : ℕ

pub record ServerError : Type 0 where
  pub status : ℕ
  pub code : Str
  pub message : Str

abbrev pub server_error : ℕ → Str → Str → ServerError
server_error status code message = record { status = status; code = code; message = message }

abbrev pub internal_error : ServerError
internal_error = server_error 500 (lit "internal_error") (lit "internal error")

-- One request as a handler gets it: the Authorization header, and the two clocks.
pub record Arrival : Type 0 where
  pub authorization : Option Str
  pub now : Instant
  pub mono : Instant

pub record TrialStart : Type 0 where
  pub fingerprint : Str
  pub email : Option Str
  pub product : Option Str
  pub version : Option Str

pub record TrialResponse : Type 0 where
  pub license_file : Value
  pub expires_at : Instant
  pub reused : Bool

pub record HeartbeatRequest : Type 0 where
  pub fingerprint : Str
  pub license_file : Value
  pub product : Option Str
  pub version : Option Str

pub record HeartbeatResponse : Type 0 where
  pub license_file : Value
  pub expires_at : Instant
  pub issued_at : Instant

-- `ServerConfig::validate`
unfoldable pub validate_config : Codec → ServerConfig → Result Str (Unit {0})
validate_config c cfg = do
  ensure (not (ltb (len cfg.activation_token) 32))
      (lit "LICENSE_SERVER_TOKEN must contain at least 32 characters")
  ensure (leb 1 cfg.trial_days && leb cfg.trial_days 30) (lit "TRIAL_DAYS must be between 1 and 30")
  ensure (is_some (c.private_of_pem cfg.signing_key_pem)) (lit "parsing signing key")
