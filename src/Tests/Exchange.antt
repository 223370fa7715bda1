-- ===== src/Tests/Exchange.antt =====
-- A heartbeat and the revocations at concrete inputs.
use migration_platform.Vendor.Guards.{
  authorize, constant_time_eq, fold_diff, rate_limit, last_seen, mark_seen,
}
use migration_platform.Text.{
  as_bytes, strip_prefix, len, to_ascii_lowercase, trim, is_ascii_hexdigit, str_eq,
}
use migration_platform.Vendor.Heartbeat.{
  check_heartbeat, limited_heartbeat, check_presented, answer_heartbeat, settle_trial,
}
use migration_platform.License.Signing.{sign_license}
use migration_platform.Tests.Toy.{string_of, write_doc, write_file, read_doc, doc_of, file_of, drop}
use migration_platform.Text.{str_eq}
use migration_platform.Prelude.{is_ok, false, ◌+◌, ◌<◌, ◌≡◌, refl, [], ◌∷◌, none, some, ok}
use migration_platform.Text.{Str, lit}
use migration_platform.Time.{days}
use migration_platform.Json.{string}
use migration_platform.License.Types.{LicenseDoc, trial}
use migration_platform.License.Signing.{verify_license}
use migration_platform.Vendor.Types.{ServerState, TrialRecord, HeartbeatRequest, HeartbeatResponse}
use migration_platform.Vendor.Guards.{normalize_fingerprint}
use migration_platform.Vendor.Store.{find_trial, find_revocation, parse_stored_ts, unrevoke}
use migration_platform.Vendor.Trial.{sign}
use migration_platform.Vendor.Heartbeat.{attest, heartbeat, reattest}
use migration_platform.Vendor.Heartbeat.Verdict.{heartbeat_granted}
use migration_platform.Vendor.Revocation.{IsRevoked, unrevoke_one_clears_row}
use migration_platform.Tests.Toy.{toy}
use migration_platform.Tests.Licenses.{noon, install, trial_file, file_issued}
use migration_platform.Tests.Server.{config, arrival, fresh, started, install_kept}

abbrev presented_beat : HeartbeatRequest
presented_beat = record {
  fingerprint = install;
  license_file = string trial_file;
  product = none;
  version = none;
}

abbrev pub beaten : HeartbeatResponse
beaten = record {
  license_file = string (file_issued noon);
  expires_at = noon + days 7;
  issued_at = noon;
}

heartbeat_answered : (heartbeat toy config arrival presented_beat fresh).0 ≡ ok beaten
unfolding heartbeat check_heartbeat authorize constant_time_eq as_bytes strip_prefix fold_diff
    normalize_fingerprint len to_ascii_lowercase trim is_ascii_hexdigit limited_heartbeat rate_limit
    last_seen mark_seen check_presented string_of verify_license sign_license str_eq
    answer_heartbeat attest settle_trial find_revocation find_trial sign write_doc write_file
    read_doc doc_of file_of drop
heartbeat_answered = refl

heartbeat_granted_example :
    (fp : Str) × (raw : Str) × (key : Str) × (doc : LicenseDoc) × (normalize_fingerprint
        presented_beat.fingerprint
      ≡ ok fp)
    × (toy.text_of_value presented_beat.license_file ≡ some raw)
    × (toy.private_of_pem config.signing_key_pem ≡ some key)
    × (verify_license toy raw key arrival.now ≡ ok doc)
    × (doc.fingerprint ≡ some fp)
    × (find_revocation fp doc.licensee fresh.revocations ≡ none)
    × (sign toy config (reattest toy noon (record doc { expires_at = noon + days 7 }))
        ≡ ok (string (file_issued noon)))
    × (noon ≡ noon)
    × (noon < noon + days 7)
    × (doc.kind ≡ trial
        → (row : TrialRecord) → find_trial fp fresh.trials ≡ some row
        → (row.revoked_reason ≡ none) × (parse_stored_ts toy row.expires_at ≡ some (noon + days 7)))
heartbeat_granted_example =
    heartbeat_granted toy config arrival presented_beat fresh beaten heartbeat_answered

-- The install is revoked for every licensee.
abbrev barred : ServerState
barred = record started {
  revocations =
      record {
        fingerprint = install;
        licensee = lit "*";
        reason = some (lit "abuse");
        revoked_at = noon ∷ [];
      }
      ∷ [];
}

barred-IsRevoked : IsRevoked install (lit "*") barred.revocations
unfolding find_revocation str_eq
barred-IsRevoked = refl

unrevoke_one_clears_row_example :
    let s' = (unrevoke install (some (lit "ada@example.com")) barred).1 in
    (is_ok (heartbeat toy config arrival presented_beat s').0 ≡ false)
    × ((row : TrialRecord) → find_trial install s'.trials ≡ some row → row.revoked_reason ≡ none)
unrevoke_one_clears_row_example =
    unrevoke_one_clears_row toy config arrival presented_beat install install
      (lit "ada@example.com") barred install_kept install_kept (λ e. cc e) barred-IsRevoked
