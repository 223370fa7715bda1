-- ===== src/License/Validity.antt =====
-- apps/api/src/security/license.rs: whether a license is usable at an instant. The process-wide
-- values that the source reads (the clock, the fingerprint) are arguments.
pub mod Laws
use migration_platform.Prelude.{
  ℕ, zero, suc, ◌+◌, ◌-◌, ◌/◌, Bool, true, false, ◌&&◌, not, Option, none, some, [], Result, ok,
  err, ◌>>=◌, ◌>>◌, ensure, ok_or, error_of, is_empty, is_some, is_none, leb, if◌then◌else◌,
}
use migration_platform.Text.{Str, str_eq}
use migration_platform.Time.{Instant, Duration, hours, diff_gt}
use migration_platform.License.Types.{
  LicenseDoc, LicenseState, LicenseProblem, expired, fingerprint_mismatch, heartbeat_grace_expired,
  missing_issued_at, revoked,
}

abbrev pub heartbeat_interval_default : Duration
heartbeat_interval_default = hours 24

abbrev pub heartbeat_grace : Duration
heartbeat_grace = hours 72

abbrev pub heartbeat_retry : Duration
heartbeat_retry = hours 1

-- The fingerprint test of `validity`: an empty local fingerprint is not checked.
unfoldable pub check_binding : Option Str → Str → Result LicenseProblem (Unit {0})
check_binding none local_fp = ok tt
check_binding (some bound) local_fp =
    if not (is_empty local_fp) && not (str_eq bound local_fp)
    then err fingerprint_mismatch
    else ok tt

-- The heartbeat test of `validity`.
unfoldable pub check_grace : Bool → Option Instant → Instant → Result LicenseProblem (Unit {0})
check_grace false issued_at now = ok tt
check_grace true none now = err missing_issued_at
check_grace true (some issued) now =
    if diff_gt now issued heartbeat_grace then err heartbeat_grace_expired else ok tt

unfoldable pub validity : LicenseDoc → Str → Instant → Result LicenseProblem (Unit {0})
unfolding check_binding check_grace
validity doc local_fp now = if leb doc.expires_at now then err expired else do
  check_binding doc.fingerprint local_fp
  check_grace doc.requires_heartbeat doc.issued_at now

-- The first test of `problem_for` is on the revocation, the second on the document.
abbrev doc_problem : Option LicenseDoc → Str → Instant → Option LicenseProblem
doc_problem none local_fp now = none
doc_problem (some doc) local_fp now = error_of (validity doc local_fp now)

unfoldable pub problem_for : LicenseState → Str → Instant → Option LicenseProblem
problem_for state local_fp now =
    if is_some state.revoked_reason then some revoked else doc_problem state.doc local_fp now

-- `is_licensed`, at the fingerprint of the process and the clock.
unfoldable pub is_licensed : LicenseState → Str → Instant → Bool
unfolding problem_for
is_licensed state fp now = is_some state.doc && is_none (problem_for state fp now)

unfoldable pub grace_until : LicenseDoc → Option Instant
grace_until doc =
    if not doc.requires_heartbeat
    then none
    else elim doc.issued_at [ none ↦ none | some t ↦ some (t + heartbeat_grace) ]

-- Whole days to the expiry, rounded up; `num_seconds` drops the fraction of a second.
unfoldable pub days_remaining : LicenseDoc → Instant → ℕ
days_remaining doc now =
    let secs = (doc.expires_at - now) / 1_000_000_000 in
    if leb secs 0 then 0 else (secs + 86_399) / 86_400
