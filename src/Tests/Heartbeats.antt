-- ===== src/Tests/Heartbeats.antt =====
-- Heartbeats from the client to the server and back at concrete inputs.
use migration_platform.Prelude.{
  ℕ, ◌+◌, ◌<◌, ◌≤◌, ◌≡◌, ◌↔◌, refl, is_ok, inr, true, false, List, [], ◌∷◌, none, some, ok, arith,
  if◌then◌else◌,
}
use migration_platform.Text.{Str, lit, str_eq, trim, trim_end_matches, as_bytes}
use migration_platform.Time.{Instant, days}
use migration_platform.Json.{string}
use migration_platform.License.Types.{LicenseDoc, LicenseState, Stamp}
use migration_platform.License.Heartbeat.{require_licensed}
use migration_platform.License.Validity.{heartbeat_grace}
use migration_platform.License.Client.{
  World, LicenseServer, build_failed, from_env, load_public_key,
}
use migration_platform.License.Tick.{attempt}
use migration_platform.Vendor.Types.{ServerState, Arrival}
use migration_platform.Text.{strip_prefix, len, to_ascii_lowercase, is_ascii_hexdigit}
use migration_platform.License.Signing.{sign_license, verify_license}
use migration_platform.Vendor.Guards.{
  authorize, constant_time_eq, fold_diff, rate_limit, last_seen, mark_seen, normalize_fingerprint,
}
use migration_platform.Vendor.Store.{find_trial, find_revocation, revoke}
use migration_platform.Vendor.Trial.{sign}
use migration_platform.Vendor.Service.{Event, withdraw, serve}
use migration_platform.Tests.Toy.{write_doc, write_file, read_doc, doc_of, file_of, drop}
use migration_platform.Exchange.Withdrawal.{revoked_never_renews}
use migration_platform.Vendor.Heartbeat.{
  heartbeat, check_heartbeat, limited_heartbeat, check_presented, answer_heartbeat, settle_trial,
  attest,
}
use migration_platform.Exchange.{post_heartbeat}
use migration_platform.Exchange.Delivery.{Delivered, sent_request}
use migration_platform.Exchange.Renewal.{heartbeat_renews}
use migration_platform.Tests.Licenses.{noon, install, pem, trial_file, trial_state}
use migration_platform.Tests.Server.{config, fresh, token, header, install_kept, other}
use migration_platform.Tests.Exchange.{beaten}
use migration_platform.Tests.Wire.{
  wire, wire_laws, wire_json, wire_value, write_body, read_body, counted,
}

pub rejected : ℕ → Str
rejected status = []

-- The machine of an install whose requests get to a server in a state.
abbrev pub arriving : Instant → Arrival
arriving at = record { authorization = header; now = at; mono = at }

-- The stamp of the store file.
abbrev pub stored : Stamp
stored = (4, 9)

abbrev pub connected : Instant → ServerState → World
connected at s = record {
  now = at;
  var = λ k.
      if str_eq k (lit "LICENSE_SERVER_URL")
      then some (lit "https://vendor.example/")
      else if str_eq k (lit "LICENSE_SERVER_TOKEN")
      then some token
      else none;
  read_file = λ path. none;
  file_stamp = λ path. some stored;
  persist = λ raw. ok (some stored);
  http = λ url t body. elim (write_body body) [
    | none ↦ build_failed []
    | some text ↦ (post_heartbeat wire wire_value rejected config (arriving at) text s).0
  ];
  embedded_pem = pem;
  version = lit "1.0.0";
}

abbrev pub vendor : LicenseServer
vendor = record { base_url = lit "https://vendor.example"; token = token }

pub configured : (at : Instant) (s : ServerState) → from_env (connected at s) ≡ some vendor
unfolding from_env str_eq trim trim_end_matches
configured at s = refl

pub key_loaded : (at : Instant) (s : ServerState) → load_public_key wire (connected at s) ≡ ok pem
unfolding load_public_key str_eq
key_loaded at s = refl

pub delivered :
    (at : Instant) (s : ServerState)
    → Delivered wire wire_value rejected config
        (connected at s)
        vendor
        install
        (string trial_file)
        (arriving at)
        s
unfolding write_body read_body as_bytes
delivered at s = record {
  text =
      2 ∷ counted install (counted trial_file (counted (lit "migration-platform") (lit "1.0.0")));
  written = refl;
  fits = omega arith;
  reads = refl;
  header = refl;
  carried = refl;
}

pub reads_file : wire.value_of_text trial_file ≡ some (string trial_file)
unfolding read_body
reads_file = refl

granted :
    (heartbeat wire config
      (arriving noon)
      (sent_request install (string trial_file) (lit "1.0.0"))
      fresh).0
    ≡ ok beaten
unfolding heartbeat check_heartbeat authorize constant_time_eq as_bytes strip_prefix fold_diff
    normalize_fingerprint len to_ascii_lowercase trim is_ascii_hexdigit limited_heartbeat rate_limit
    last_seen mark_seen check_presented verify_license sign_license str_eq answer_heartbeat attest
    settle_trial find_revocation find_trial sign write_doc write_file read_doc doc_of file_of drop
    write_body read_body
granted = refl

heartbeat_renews_example :
    (is_ok (
        require_licensed true
          (attempt wire (connected noon fresh) install trial_file trial_state)
          install
          (noon + days 2))
      ≡ true)
    ↔ ((noon + days 2 < noon + days 7) × (noon + days 2 ≤ noon + heartbeat_grace))
heartbeat_renews_example =
    heartbeat_renews wire wire_value rejected config wire_laws wire_json (connected noon fresh)
      vendor install trial_file (string trial_file) (arriving noon) fresh pem trial_state beaten
      (delivered noon fresh) (configured noon fresh) refl (key_loaded noon fresh) install_kept
      reads_file granted (omega arith) (noon + days 2)

-- Another install is revoked after this one.
abbrev later : List Event
later = withdraw noon other (lit "*") (lit "abuse") ∷ []

abbrev barred : ServerState
barred = serve wire config later (revoke wire noon install (lit "*") (lit "abuse") fresh).1

written_file : wire.text_of_value (string trial_file) ≡ some trial_file
unfolding write_body
written_file = refl

abbrev after_refusal : LicenseState
after_refusal = attempt wire (connected noon barred) install trial_file trial_state

revoked_never_renews_example :
    (is_ok (require_licensed true after_refusal install noon) ≡ true
      → is_ok (require_licensed true trial_state install noon) ≡ true)
    × ((doc : LicenseDoc)
        → authorize config (arriving noon).authorization ≡ ok tt
        → (rate_limit (arriving noon).mono install barred).0 ≡ ok tt
        → check_presented wire config
            (arriving noon).now
            install
            (sent_request install (string trial_file) (lit "1.0.0"))
          ≡ ok doc
        → is_ok (require_licensed true after_refusal install noon) ≡ false)
revoked_never_renews_example =
    revoked_never_renews wire wire_value rejected config wire_json (connected noon barred) vendor
      pem pem install trial_file trial_file install (lit "*") (lit "abuse") (string trial_file)
      (arriving noon) noon fresh later trial_state install_kept (tt, tt) (delivered noon barred)
      (configured noon barred) (key_loaded noon barred) refl reads_file written_file
      (λ doc v. inr refl) noon
