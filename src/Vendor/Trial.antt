-- ===== src/Vendor/Trial.antt =====
-- apps/api/src/license_server.rs: POST /v1/trial/start
pub mod Laws
pub mod Terms
use migration_platform.Prelude.{
  ℕ, ◌+◌, ◌*◌, ◌++◌, Bool, true, false, not, ◌&&◌, List, [], ◌∷◌, Option, none, some, is_none,
  Result, ok, err, ◌>>=◌, ◌>>◌, ok_or, map_err, leb, if◌then◌else◌,
}
use migration_platform.Text.{Str, lit, trim, filter_opt, nonempty}
use migration_platform.Time.{Instant, days}
use migration_platform.Json.{Value}
use migration_platform.License.Types.{LicenseDoc, trial}
use migration_platform.License.Signing.{Codec, sign_license}
use migration_platform.License.Email.{validate_trial_email}
use migration_platform.Vendor.Types.{
  ServerConfig, TrialRecord, ServerState, ServerError, server_error, internal_error, Arrival,
  TrialStart, TrialResponse,
}
use migration_platform.Vendor.Guards.{authorize, normalize_fingerprint, rate_limit}
use migration_platform.Vendor.Store.{find_trial, update_trial, parse_stored_ts}

abbrev map_opt : (Str → Str) → Option Str → Option Str
map_opt f none = none
map_opt f (some s) = some (f s)

abbrev or_str : Option Str → Str → Str
or_str none d = d
or_str (some s) d = s

-- The contact address that the request must carry.
unfoldable pub required_email : Option Str → Result ServerError Str
required_email email = elim (filter_opt nonempty (map_opt trim email)) [
  | none ↦
      err (
        server_error 400 (lit "email_required")
          (lit "a contact email is required to start a trial"))
  | some e ↦ map_err (server_error 400 (lit "invalid_email")) (validate_trial_email e)
]

-- What stands before the limiter: the token, the fingerprint and the address.
unfoldable pub check_trial_start :
    ServerConfig → Arrival → TrialStart → Result ServerError (Str × Str)
check_trial_start cfg arrival req = do
  authorize cfg arrival.authorization
  fp ← map_err (server_error 400 (lit "bad_request")) (normalize_fingerprint req.fingerprint)
  email ← required_email req.email
  ok (fp, email)

module _ (c : Codec) where
  -- `sign`
  unfoldable pub sign : ServerConfig → LicenseDoc → Result ServerError Value
  sign cfg doc = do
    signed ← map_err (λ e. internal_error) (sign_license c doc cfg.signing_key_pem)
    ok_or (c.value_of_text signed) internal_error

  -- `match existing { Some(row) => … }`: the expiry, and the licensee.
  unfoldable pub reuse_trial : Instant → Str → TrialRecord → Result ServerError (Instant × Str)
  reuse_trial now email row = elim (parse_stored_ts c row.expires_at) [
    | none ↦ err internal_error
    | some expires_at ↦ elim row.revoked_reason [
      | some reason ↦
          err (
            server_error 403 (lit "revoked") (lit "trial for this install was revoked: " ++ reason))
      | none ↦
          if leb expires_at now
          then err (
              server_error 402 (lit "trial_expired")
                (lit "trial for this install already expired at " ++ c.show_instant expires_at))
          else ok (expires_at, or_str row.email email)
    ]
  ]

  abbrev record_email : Str → TrialRecord → TrialRecord
  record_email email r = record r { email = some email }

  unfoldable pub new_trial : ServerConfig → Instant → Str → Str → TrialStart → TrialRecord
  new_trial cfg now fp email req = record {
    fingerprint = fp;
    email = some email;
    started_at = c.to_rfc3339 now;
    expires_at = c.to_rfc3339 (now + days cfg.trial_days);
    product = or_str req.product (lit "migration-platform");
    version = or_str req.version [];
    last_heartbeat_at = some (c.to_rfc3339 now);
    heartbeat_count = 0;
    revoked_at = none;
    revoked_reason = none;
  }

  unfoldable pub trial_doc : Instant → Str → Str → Instant → LicenseDoc
  trial_doc now fp licensee expires_at = record {
    licensee = licensee;
    expires_at = expires_at;
    features = lit "core" ∷ [];
    max_seats = some 5;
    issued_at = some now;
    kind = trial;
    fingerprint = some fp;
    requires_heartbeat = true;
  }

  -- The signed answer.
  unfoldable pub answer_trial :
      ServerConfig → Instant → Str → Bool → Instant × Str → Result ServerError TrialResponse
  answer_trial cfg now fp reused (expires_at, licensee) = do
    license_file ← sign cfg (trial_doc now fp licensee expires_at)
    ok (record { license_file = license_file; expires_at = expires_at; reused = reused })

  -- The part behind the limiter.
  unfoldable pub grant_trial :
      ServerConfig
      → Instant
      → Str
      → Str
      → TrialStart
      → Option TrialRecord
      → ServerState
      → Result ServerError TrialResponse × ServerState
  grant_trial cfg now fp email req none s = (
    answer_trial cfg now fp false (now + days cfg.trial_days, email),
    record s { trials = new_trial cfg now fp email req ∷ s.trials },
  )
  grant_trial cfg now fp email req (some row) s = elim (reuse_trial now email row) [
    | err e ↦ (err e, s)
    | ok terms ↦ (
      answer_trial cfg now fp true terms,
      if is_none row.email
          then record s { trials = update_trial fp (record_email email) s.trials }
          else s,
    )
  ]

  unfoldable pub limited_trial :
      ServerConfig
      → Arrival
      → TrialStart
      → Str × Str
      → ServerState
      → Result ServerError TrialResponse × ServerState
  limited_trial cfg arrival req (fp, email) s =
      let (r, s₁) = rate_limit arrival.mono fp s in
      elim r [
        | err e ↦ (err e, s₁)
        | ok u ↦ grant_trial cfg arrival.now fp email req (find_trial fp s₁.trials) s₁
      ]

  unfoldable pub trial_start :
      ServerConfig
      → Arrival
      → TrialStart
      → ServerState
      → Result ServerError TrialResponse × ServerState
  trial_start cfg arrival req s = elim (check_trial_start cfg arrival req) [
    | err e ↦ (err e, s)
    | ok checked ↦ limited_trial cfg arrival req checked s
  ]
