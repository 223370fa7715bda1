-- ===== src/Exchange/WellKept.antt =====
-- A license of the client that needs no more than its next heartbeats.
use migration_platform.Prelude.{◌+◌, ◌≤◌, ◌<◌, ◌≡◌, true, false, none, some, ok, is_ok, arith}
use migration_platform.Text.{Str, lit}
use migration_platform.Time.{Instant, Duration}
use migration_platform.License.Types.{LicenseDoc, LicenseState, LoadedLicense}
use migration_platform.License.Signing.{Codec}
use migration_platform.License.Validity.{is_licensed, heartbeat_grace}
use migration_platform.License.Validity.Laws.{validity_iff}
use migration_platform.License.Heartbeat.{require_licensed, heartbeat_interval, heartbeat_due}
use migration_platform.License.Heartbeat.Laws.{require_licensed-is_licensed}
use migration_platform.License.Client.{
  World, LicenseServer, from_env, load_public_key, heartbeat_once, refreshed,
}
use migration_platform.License.Tick.{attempt, attempt_if_held, record_outcome, beat}
use migration_platform.License.Tick.Liveness.{is_due}

-- The license is held and attested: no refusal and no error stands, and an interval has not gone by
-- since its issue.
pub record WellKept (fp : Str) (horizon : Instant) (interval : Duration) (n : Instant)
    (s : LicenseState) : Type 0 where
  pub doc : LicenseDoc
  pub issued : Instant
  pub holds : s.doc ≡ some doc
  pub wants : doc.requires_heartbeat ≡ true
  pub dated : doc.issued_at ≡ some issued
  pub bound : doc.fingerprint ≡ some fp
  pub kept : s.revoked_reason ≡ none
  pub clean : s.last_heartbeat_error ≡ none
  pub young : n < issued + interval
  pub lasting : horizon ≤ doc.expires_at

pub WellKept-open :
    (fp : Str) (horizon n t : Instant) (interval gap : Duration) (s : LicenseState)
    → WellKept fp horizon interval n s
    → interval + gap ≤ heartbeat_grace
    → t ≤ n + gap
    → t < horizon
    → is_ok (require_licensed true s fp t) ≡ true
WellKept-open fp horizon n t interval gap s k room soon before =
    let usable = (validity_iff k.doc fp t).1 (ground (arith, k.bound, k.wants, k.dated)) in
    rw require_licensed-is_licensed (unfold is_licensed in ground (arith, k.holds, k.kept, usable))

abbrev pub tick_interval : World → Duration
tick_interval w = heartbeat_interval (w.var (lit "LICENSE_HEARTBEAT_INTERVAL_SECS"))

pub waiting-young :
    (w : World) (s : LicenseState) (doc : LicenseDoc) (issued : Instant)
    → s.doc ≡ some doc
    → doc.requires_heartbeat ≡ true
    → doc.issued_at ≡ some issued
    → s.revoked_reason ≡ none
    → s.last_heartbeat_error ≡ none
    → is_due w s ≡ false
    → w.now < issued + tick_interval w
unfolding heartbeat_due
waiting-young w s doc issued h w' d k e due = ground arith

pub beat-refreshed :
    (c : Codec) (w : World) (fp : Str) (server : LicenseServer) (key : c.PublicKey) (raw : Str)
    (held : LicenseState) (doc : LicenseDoc) (loaded : LoadedLicense)
    → is_due w held ≡ true
    → held.raw ≡ some raw
    → held.doc ≡ some doc
    → from_env w ≡ some server
    → load_public_key c w ≡ ok key
    → heartbeat_once c w server fp raw key ≡ refreshed loaded
    → beat c w fp held
      ≡ record_outcome w (refreshed loaded) (record held { last_heartbeat_attempt = some w.now })
unfolding beat attempt_if_held attempt
beat-refreshed c w fp server key raw held doc loaded due hr hd names trusts outcome =
    ground (arith, outcome)
