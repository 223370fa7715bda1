-- ===== src/Vendor/Heartbeat.antt =====
-- apps/api/src/license_server.rs: POST /v1/heartbeat
pub mod Laws
pub mod Statuses
pub mod Presented
pub mod Verdict
use migration_platform.Prelude.{
  ℕ, ◌+◌, ◌++◌, Bool, true, false, not, List, [], ◌∷◌, Option, none, some, Result, ok, err, ◌>>=◌,
  ◌>>◌, ensure, ok_or, map_err, leb, if◌then◌else◌,
}
use migration_platform.Text.{Str, lit, str_eq, contains}
use migration_platform.Time.{Instant}
use migration_platform.Json.{Value}
use migration_platform.License.Types.{LicenseDoc, LicenseKind, trial, commercial}
use migration_platform.License.Signing.{Codec, SigningError, verify_license, signing_error_text}
use migration_platform.Vendor.Types.{
  ServerConfig, TrialRecord, Revocation, ServerState, ServerError, server_error, internal_error,
  Arrival, HeartbeatRequest, HeartbeatResponse,
}
use migration_platform.Vendor.Guards.{authorize, normalize_fingerprint, rate_limit}
use migration_platform.Vendor.Store.{find_trial, update_trial, find_revocation, parse_stored_ts}
use migration_platform.Vendor.Trial.{sign}

-- The token and the fingerprint.
unfoldable pub check_heartbeat : ServerConfig → Arrival → HeartbeatRequest → Result ServerError Str
check_heartbeat cfg arrival req = do
  authorize cfg arrival.authorization
  map_err (server_error 400 (lit "bad_request")) (normalize_fingerprint req.fingerprint)

abbrev is_bound_to : Option Str → Str → Bool
is_bound_to none fp = false
is_bound_to (some bound) fp = str_eq bound fp

abbrev or_str : Option Str → Str → Str
or_str none d = d
or_str (some s) d = s

-- `ok_or` for a row that must not be there.
abbrev refuse_if {ℓ} : {A : Type ℓ} → Option A → (A → ServerError) → Result ServerError (Unit {0})
refuse_if none e = ok tt
refuse_if (some a) e = err (e a)

module _ (c : Codec) where
  -- A verification error is an expiry if its text says so.
  unfoldable pub presented_error : SigningError → ServerError
  presented_error e =
      if contains (signing_error_text c e) (lit "expired")
      then server_error 402 (lit "expired") (signing_error_text c e)
      else server_error 400 (lit "invalid_license") (lit "presented license is not valid")

  -- The presented file must be signed by the vendor, unexpired, and bound to the install.
  unfoldable pub check_presented :
      ServerConfig → Instant → Str → HeartbeatRequest → Result ServerError LicenseDoc
  check_presented cfg now fp req = do
    raw ← ok_or (c.text_of_value req.license_file) internal_error
    key ← ok_or (c.private_of_pem cfg.signing_key_pem) internal_error
    doc ← map_err presented_error (verify_license c raw (c.public_of key) now)
    ensure (is_bound_to doc.fingerprint fp) (
        server_error 400 (lit "fingerprint_mismatch")
          (lit "license is not bound to the presenting install"))
    ok doc

  unfoldable pub revoked_error : Revocation → ServerError
  revoked_error r =
      server_error 403 (lit "revoked") (lit "license revoked: " ++ or_str r.reason (lit "revoked"))

  -- What the heartbeat of a trial writes into its row.
  unfoldable pub note_heartbeat : Instant → HeartbeatRequest → TrialRecord → TrialRecord
  note_heartbeat now req r = record r {
    last_heartbeat_at = some (c.to_rfc3339 now);
    heartbeat_count = r.heartbeat_count + 1;
    product = or_str req.product r.product;
    version = or_str req.version r.version;
  }

  -- The row's expiry is the one that counts.
  unfoldable pub trial_expiry : Instant → TrialRecord → Result ServerError Instant
  trial_expiry now row = elim row.revoked_reason [
    | some reason ↦ err (server_error 403 (lit "revoked") (lit "trial revoked: " ++ reason))
    | none ↦ elim (parse_stored_ts c row.expires_at) [
      | none ↦ err internal_error
      | some server_exp ↦
          if leb server_exp now
          then err (
              server_error 402 (lit "trial_expired")
                (lit "trial expired at " ++ c.show_instant server_exp))
          else ok server_exp
    ]
  ]

  -- `if doc.kind == LicenseKind::Trial { … }`: the document that is signed again, and the tables.
  unfoldable pub settle_trial :
      Instant
      → Str
      → HeartbeatRequest
      → LicenseDoc
      → LicenseKind
      → Option TrialRecord
      → ServerState
      → Result ServerError LicenseDoc × ServerState
  settle_trial now fp req doc commercial row s = (ok doc, s)
  settle_trial now fp req doc trial none s = (ok doc, s)
  settle_trial now fp req doc trial (some row) s = elim (trial_expiry now row) [
    | err e ↦ (err e, s)
    | ok server_exp ↦ (
      ok (record doc { expires_at = server_exp }),
      record s { trials = update_trial fp (note_heartbeat now req) s.trials },
    )
  ]

  abbrev pub reattest : Instant → LicenseDoc → LicenseDoc
  reattest now doc = record doc { issued_at = some now; requires_heartbeat = true }

  unfoldable pub answer_heartbeat :
      ServerConfig → Instant → Result ServerError LicenseDoc → Result ServerError HeartbeatResponse
  answer_heartbeat cfg now r = do
    doc ← r
    license_file ← sign c cfg (reattest now doc)
    ok (record { license_file = license_file; expires_at = doc.expires_at; issued_at = now })

  -- The part behind the checks of the document.
  unfoldable pub attest :
      ServerConfig
      → Instant
      → Str
      → HeartbeatRequest
      → LicenseDoc
      → ServerState
      → Result ServerError HeartbeatResponse × ServerState
  attest cfg now fp req doc s = elim (find_revocation fp doc.licensee s.revocations) [
    | some r ↦ (err (revoked_error r), s)
    | none ↦
        let (r, s') = settle_trial now fp req doc doc.kind (find_trial fp s.trials) s in
        (answer_heartbeat cfg now r, s')
  ]

  unfoldable pub limited_heartbeat :
      ServerConfig
      → Arrival
      → HeartbeatRequest
      → Str
      → ServerState
      → Result ServerError HeartbeatResponse × ServerState
  limited_heartbeat cfg arrival req fp s =
      let (r, s₁) = rate_limit arrival.mono fp s in
      elim r [
        | err e ↦ (err e, s₁)
        | ok u ↦ elim (check_presented cfg arrival.now fp req) [
          | err e ↦ (err e, s₁)
          | ok doc ↦ attest cfg arrival.now fp req doc s₁
        ]
      ]

  unfoldable pub heartbeat :
      ServerConfig
      → Arrival
      → HeartbeatRequest
      → ServerState
      → Result ServerError HeartbeatResponse × ServerState
  heartbeat cfg arrival req s = elim (check_heartbeat cfg arrival req) [
    | err e ↦ (err e, s)
    | ok fp ↦ limited_heartbeat cfg arrival req fp s
  ]
