-- ===== src/License/Heartbeat.antt =====
-- apps/api/src/security/license.rs: when a heartbeat is due, which stored license is adopted, and
-- the gate in front of the operations that produce work.
pub mod Laws
use migration_platform.Prelude.{
  is_some, is_none, ℕ, ◌++◌, Bool, true, false, ◌&&◌, not, Option, none, some, Result, ok, err,
  is_ok, ltb, if◌then◌else◌,
}
use migration_platform.Text.{Str, lit}
use migration_platform.Int.{ℤ, pos, negsuc, is_positive, parse_i64}
use migration_platform.Time.{Instant, Duration, seconds, unix_epoch, diff_ge}
use migration_platform.Api.{ApiError, ApiResult, license_required}
use migration_platform.License.Types.{
  LicenseDoc, LicenseKind, trial, commercial, LicenseState, LicenseProblem, expired,
  fingerprint_mismatch, heartbeat_grace_expired, missing_issued_at, revoked, doc_eq, problem_as_str,
}
use migration_platform.License.Validity.{
  heartbeat_interval_default, heartbeat_retry, validity, problem_for,
}

-- The seconds that LICENSE_HEARTBEAT_INTERVAL_SECS gives, if they are a positive number.
abbrev interval_of : Option ℤ → Duration
interval_of none = heartbeat_interval_default
interval_of (some (pos n)) = if ltb 0 n then seconds n else heartbeat_interval_default
interval_of (some (negsuc n)) = heartbeat_interval_default

unfoldable pub heartbeat_interval : Option Str → Duration
heartbeat_interval none = heartbeat_interval_default
heartbeat_interval (some v) = interval_of (parse_i64 v)

-- `match state.last_heartbeat_attempt` of a revoked license
unfoldable pub probe_due : Option Instant → Instant → Bool
probe_due none now = true
probe_due (some last) now = diff_ge now last heartbeat_retry

-- Retries wait only after an attempt that left an error.
unfoldable pub retry_due : Option Instant → Option Str → Instant → Bool
retry_due (some last) (some e) now = diff_ge now last heartbeat_retry
retry_due (some last) none now = true
retry_due none e now = true

-- The tests of `heartbeat_due` on a document that requires heartbeats and is not revoked.
unfoldable pub attestation_due : Duration → Option Instant → LicenseState → Instant → Bool
unfolding retry_due
attestation_due interval none state now = true
attestation_due interval (some issued) state now =
    if diff_ge now issued interval
    then retry_due state.last_heartbeat_attempt state.last_heartbeat_error now
    else false

unfoldable pub doc_due : Duration → Option LicenseDoc → LicenseState → Instant → Bool
unfolding probe_due attestation_due
doc_due interval none state now = false
doc_due interval (some doc) state now =
    if not doc.requires_heartbeat
    then false
    else if is_some state.revoked_reason
    then probe_due state.last_heartbeat_attempt now
    else attestation_due interval doc.issued_at state now

unfoldable pub heartbeat_due : Duration → LicenseState → Instant → Bool
unfolding doc_due
heartbeat_due interval state now = doc_due interval state.doc state now

abbrev or_epoch : Option Instant → Instant
or_epoch none = unix_epoch
or_epoch (some t) = t

-- The last `match` of `should_adopt`.
unfoldable pub precedes : LicenseDoc → LicenseDoc → LicenseKind → LicenseKind → Bool
precedes cur candidate trial commercial = true
precedes cur candidate commercial trial = false
precedes cur candidate trial trial = ltb (or_epoch cur.issued_at) (or_epoch candidate.issued_at)
precedes cur candidate commercial commercial =
    ltb (or_epoch cur.issued_at) (or_epoch candidate.issued_at)

unfoldable pub adopt_over : Option LicenseDoc → LicenseState → LicenseDoc → Str → Instant → Bool
unfolding precedes
adopt_over none current candidate local_fp now = true
adopt_over (some cur) current candidate local_fp now =
    let cur_ok = is_none (problem_for current local_fp now) in
    let cand_ok = is_ok (validity candidate local_fp now) in
    if doc_eq cur candidate
    then false
    else if not cand_ok
    then false
    else if not cur_ok
    then true
    else precedes cur candidate cur.kind candidate.kind

unfoldable pub should_adopt : LicenseState → LicenseDoc → Str → Instant → Bool
unfolding adopt_over
should_adopt current candidate local_fp now = adopt_over current.doc current candidate local_fp now

-- The advice that `require_licensed` puts before the reason.
unfoldable pub hint_for : Option LicenseProblem → Str
hint_for none =
    lit
      "A valid license is required. Start a trial from Settings → License or mount a commercial LICENSE_FILE."
hint_for (some heartbeat_grace_expired) =
    lit
      "The license could not be re-attested with the license server for more than 72 hours. Restore connectivity to LICENSE_SERVER_URL or mount a commercial LICENSE_FILE."
hint_for (some revoked) =
    lit "The license server revoked this license. Contact the vendor or mount a new LICENSE_FILE."
hint_for (some expired) = lit "The license has expired. Mount a renewed commercial LICENSE_FILE."
hint_for (some fingerprint_mismatch) =
    lit
      "A valid license is required. Start a trial from Settings → License or mount a commercial LICENSE_FILE."
hint_for (some missing_issued_at) =
    lit
      "A valid license is required. Start a trial from Settings → License or mount a commercial LICENSE_FILE."

abbrev reason_for : Option LicenseProblem → Str
reason_for none = lit "missing"
reason_for (some p) = problem_as_str p

-- The error that refuses an operation.
unfoldable pub denial : Option LicenseProblem → ApiError
denial problem =
    license_required (hint_for problem ++ (lit " (reason: " ++ (reason_for problem ++ lit ")")))

unfoldable pub require_licensed : Bool → LicenseState → Str → Instant → ApiResult (Unit {0})
require_licensed enforce state fp now =
    let problem = problem_for state fp now in
    if not enforce
    then ok tt
    else if is_some state.doc && is_none problem
    then ok tt
    else err (denial problem)
