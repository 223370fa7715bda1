-- ===== src/License/Tick.antt =====
-- apps/api/src/security/license.rs: what changes the license that the process holds: activation, the
-- reload of the store file, and the background tick. Metrics and log lines are left out.
pub mod Laws
pub mod Outcome
pub mod Liveness
use migration_platform.Prelude.{
  ℕ, ◌++◌, Bool, true, false, Option, none, some, Result, ok, err, if◌then◌else◌,
}
use migration_platform.Text.{Str, lit, decimal}
use migration_platform.License.Types.{
  LicenseDoc, LicenseState, LoadedLicense, Stamp, opt_eq, stamp_eq,
}
use migration_platform.License.Signing.{Codec}
use migration_platform.License.Heartbeat.{heartbeat_interval, heartbeat_due, should_adopt}
use migration_platform.License.Client.{
  World, LicenseServer, HeartbeatOutcome, refreshed, denied, unavailable, from_env, store_path,
  load_public_key, load_and_verify_path, heartbeat_once,
}

unfoldable pub activate : LoadedLicense → LicenseState → LicenseState
activate loaded s = record s {
  doc = some loaded.doc;
  raw = some loaded.raw;
  revoked_reason = none;
  last_heartbeat_error = none;
  store_stamp = loaded.store_stamp;
}

-- `stamp.or(s.store_stamp)`
abbrev or_stamp : Option Stamp → Option Stamp → Option Stamp
or_stamp none b = b
or_stamp (some a) b = some a

abbrev stamp_of_result : Result Str (Option Stamp) → Option Stamp
stamp_of_result (ok s) = s
stamp_of_result (err e) = none

abbrev pub unconfigured : Str
unconfigured =
    lit "license requires heartbeat but LICENSE_SERVER_URL/LICENSE_SERVER_TOKEN are unset"

-- What the tick records of the outcome of an exchange.
unfoldable pub record_outcome : World → HeartbeatOutcome → LicenseState → LicenseState
record_outcome w (refreshed loaded) s = record s {
  doc = some loaded.doc;
  raw = some loaded.raw;
  revoked_reason = none;
  last_heartbeat_error = none;
  store_stamp = or_stamp (stamp_of_result (w.persist loaded.raw)) s.store_stamp;
}
record_outcome w (denied status reason) s = record s {
  revoked_reason = some (decimal status ++ (lit ": " ++ reason));
  last_heartbeat_error = some reason;
}
record_outcome w (unavailable e) s = record s { last_heartbeat_error = some e }

module _ (c : Codec) where
  -- A candidate that verified, and the stamp that the store file has.
  unfoldable pub adopt_or_skip :
      World → Str → Stamp → Result Str LoadedLicense → LicenseState → LicenseState
  unfolding activate
  adopt_or_skip w fp stamp (ok loaded) s =
      if should_adopt s loaded.doc fp w.now
      then activate loaded s
      else record s { store_stamp = some stamp }
  adopt_or_skip w fp stamp (err e) s = record s { store_stamp = some stamp }

  unfoldable pub reload_store_if_changed : World → Str → LicenseState → LicenseState
  reload_store_if_changed w fp s =
      let path = store_path w in
      elim (w.file_stamp path) [
        | none ↦ s
        | some stamp ↦
            if opt_eq stamp_eq s.store_stamp (some stamp) then s else elim (load_public_key c w) [
              | err e ↦ s
              | ok key ↦ adopt_or_skip w fp stamp (load_and_verify_path c w path key fp) s
            ]
      ]

  -- The tick from the moment that the attempt is recorded.
  unfoldable pub attempt : World → Str → Str → LicenseState → LicenseState
  attempt w fp raw s = elim (from_env w) [
    | none ↦ record s { last_heartbeat_error = some unconfigured }
    | some server ↦ elim (load_public_key c w) [
      | err e ↦ s
      | ok key ↦ record_outcome w (heartbeat_once c w server fp raw key) s
    ]
  ]

  -- `let (Some(raw), Some(doc)) = … else { return }`
  unfoldable pub attempt_if_held :
      World → Str → Option Str → Option LicenseDoc → LicenseState → LicenseState
  attempt_if_held w fp (some raw) (some doc) s =
      attempt w fp raw (record s { last_heartbeat_attempt = some w.now })
  attempt_if_held w fp none doc s = s
  attempt_if_held w fp (some raw) none s = s

  -- The tick after the store file was looked at.
  unfoldable pub beat : World → Str → LicenseState → LicenseState
  beat w fp s =
      let interval = heartbeat_interval (w.var (lit "LICENSE_HEARTBEAT_INTERVAL_SECS")) in
      if heartbeat_due interval s w.now then attempt_if_held w fp s.raw s.doc s else s

  unfoldable pub heartbeat_tick : World → Str → LicenseState → LicenseState
  heartbeat_tick w fp s = beat w fp (reload_store_if_changed w fp s)
