-- ===== src/Tests/Upkeep.antt =====
-- The ticks of a client whose heartbeat is granted, at a concrete input.
use migration_platform.Prelude.{◌-◌, ◌+◌, ◌≡◌, refl, is_ok, true, inr, [], ◌∷◌, some, ok, arith}
use migration_platform.Text.{lit, str_eq, trim, as_bytes}
use migration_platform.Time.{Instant, days, hours}
use migration_platform.Json.{string}
use migration_platform.License.Types.{LicenseState}
use migration_platform.License.Heartbeat.{require_licensed}
use migration_platform.Vendor.Types.{HeartbeatResponse}
use migration_platform.Text.{strip_prefix, len, to_ascii_lowercase, is_ascii_hexdigit}
use migration_platform.License.Signing.{sign_license, verify_license}
use migration_platform.Vendor.Guards.{
  authorize, constant_time_eq, fold_diff, rate_limit, last_seen, mark_seen, normalize_fingerprint,
}
use migration_platform.Vendor.Store.{find_trial, find_revocation}
use migration_platform.Vendor.Trial.{sign}
use migration_platform.Tests.Toy.{write_doc, write_file, read_doc, doc_of, file_of, drop}
use migration_platform.Exchange.WellKept.{WellKept, tick_interval}
use migration_platform.Exchange.Upkeep.{Answered, ticks_keep_open}
use migration_platform.License.Tick.{heartbeat_tick}
use migration_platform.License.Heartbeat.{heartbeat_interval}
use migration_platform.Vendor.Heartbeat.{
  heartbeat, check_heartbeat, limited_heartbeat, check_presented, answer_heartbeat, settle_trial,
  attest,
}
use migration_platform.Exchange.Delivery.{sent_request}
use migration_platform.Tests.Licenses.{
  noon, install, pem, trial_license, trial_file, trial_state, file_issued,
}
use migration_platform.Tests.Server.{config, fresh, install_kept}
use migration_platform.Tests.Wire.{wire, wire_laws, wire_json, wire_value, write_body, read_body}
use migration_platform.Tests.Heartbeats.{
  rejected, arriving, stored, connected, vendor, configured, key_loaded, delivered, reads_file,
}

-- A day later a heartbeat is due.
abbrev next_day : Instant
next_day = noon + hours 24

abbrev holding : LicenseState
holding = record trial_state { raw = some trial_file; store_stamp = some stored }

abbrev beaten_again : HeartbeatResponse
beaten_again = record {
  license_file = string (file_issued next_day);
  expires_at = noon + days 7;
  issued_at = next_day;
}

granted_again :
    (heartbeat wire config
      (arriving next_day)
      (sent_request install (string trial_file) (lit "1.0.0"))
      fresh).0
    ≡ ok beaten_again
unfolding heartbeat check_heartbeat authorize constant_time_eq as_bytes strip_prefix fold_diff
    normalize_fingerprint len to_ascii_lowercase trim is_ascii_hexdigit limited_heartbeat rate_limit
    last_seen mark_seen check_presented verify_license sign_license str_eq answer_heartbeat attest
    settle_trial find_revocation find_trial sign write_doc write_file read_doc doc_of file_of drop
    write_body read_body
granted_again = refl

next_day-Answered :
    Answered wire wire_value rejected config pem install
      (noon + days 7)
      (connected next_day fresh)
      holding
next_day-Answered = record {
  server = vendor;
  raw = trial_file;
  file = string trial_file;
  a = arriving next_day;
  s = fresh;
  r = beaten_again;
  holds = refl;
  finds = configured next_day fresh;
  trusts = key_loaded next_day fresh;
  reads = reads_file;
  sent = delivered next_day fresh;
  granted = granted_again;
  on_time = refl;
  lasting = omega arith;
}

well_kept : WellKept install (noon + days 7) (hours 24) noon holding
well_kept = record {
  doc = trial_license;
  issued = noon - hours 1;
  holds = refl;
  wants = refl;
  dated = refl;
  bound = refl;
  kept = refl;
  clean = refl;
  young = omega arith;
  lasting = omega arith;
}

daily : tick_interval (connected next_day fresh) ≡ hours 24
unfolding heartbeat_interval str_eq
daily = refl

ticks_keep_open_example :
    is_ok (
      require_licensed true
        (heartbeat_tick wire (connected next_day fresh) install holding)
        install
        (noon + hours 70))
    ≡ true
ticks_keep_open_example =
    ticks_keep_open wire wire_value rejected config pem install (noon + days 7) wire_laws wire_json
      refl install_kept (hours 24) (hours 48) noon (connected next_day fresh ∷ []) holding
      (omega arith) well_kept
      (omega arith, omega arith, daily, inr refl, (λ due. next_day-Answered), tt) (noon + hours 70)
      (omega arith) (omega arith)
