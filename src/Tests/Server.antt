-- ===== src/Tests/Server.antt =====
-- The license server's guards, trials and revocations at concrete inputs.
use migration_platform.Vendor.Service.{step}
use migration_platform.Vendor.Trial.{reuse_trial, new_trial}
use migration_platform.Vendor.Store.{update_trial, upsert_revocation}
use migration_platform.Vendor.Trial.{
  check_trial_start, required_email, sign, answer_trial, grant_trial, limited_trial, trial_doc,
}
use migration_platform.License.Email.{validate_trial_email, check_email, is_hostname}
use migration_platform.Text.{is_control, rsplit_once, is_ascii_alphanumeric, split, str_eq}
use migration_platform.License.Signing.{sign_license}
use migration_platform.Tests.Toy.{write_doc, string_of, write_file}
use migration_platform.Vendor.Guards.{mark_seen, fold_diff}
use migration_platform.Vendor.Guards.{last_seen}
use migration_platform.Text.{is_ascii_hexdigit, len, strip_prefix, to_ascii_lowercase, trim}
use migration_platform.Prelude.{
  ℕ, ◌+◌, ◌<◌, ◌≡◌, refl, Bool, true, false, List, [], ◌∷◌, Option, none, some, ok, err, arith,
}
use migration_platform.Text.{Str, lit, as_bytes}
use migration_platform.Text.Laws.{IsText}
use migration_platform.Time.{Instant, seconds, days}
use migration_platform.Json.{string}
use migration_platform.Vendor.Types.{
  ServerConfig, ServerState, TrialRecord, Arrival, TrialStart, TrialResponse, validate_config,
}
use migration_platform.Vendor.Guards.{
  authorize, constant_time_eq, normalize_fingerprint, rate_limit, slow_down,
}
use migration_platform.Vendor.Guards.Limiter.{Request, after, rate_limit_spacing}
use migration_platform.Vendor.Store.{
  update_trial, upsert_revocation, find_trial, parse_stored_ts, revoke,
}
use migration_platform.Vendor.Trial.{trial_start}
use migration_platform.Vendor.Service.{step, Event, withdraw, serve}
use migration_platform.Vendor.Service.Laws.{trial_never_restarts}
use migration_platform.Tests.Toy.{toy, toy_laws}
use migration_platform.Tests.Licenses.{noon, install, pem, file_issued}

abbrev pub token : Str
token = lit "an activation token of 36 characters"

abbrev pub config : ServerConfig
config = record { signing_key_pem = pem; activation_token = token; trial_days = 7 }

abbrev pub header : Option Str
header = some (lit "Bearer an activation token of 36 characters")

abbrev pub fresh : ServerState
fresh = record {
  trials = [];
  revocations = [];
  per_fingerprint = [];
  window_start = 0;
  window_count = 0;
}

abbrev sent : List ℕ
sent = 1 ∷ 2 ∷ []

abbrev kept : List ℕ
kept = 1 ∷ 3 ∷ []

token-IsText : IsText token
token-IsText = ground arith

config_valid : validate_config toy config ≡ ok tt
unfolding validate_config len
config_valid = refl

install_named : normalize_fingerprint (lit " 0123456789ABCDEF ") ≡ ok install
unfolding normalize_fingerprint len to_ascii_lowercase trim is_ascii_hexdigit
install_named = refl

pub install_kept : normalize_fingerprint install ≡ ok install
unfolding normalize_fingerprint len to_ascii_lowercase trim is_ascii_hexdigit
install_kept = refl

-- Another install calls three seconds after the first.
abbrev pub other : Str
other = lit "fedcba9876543210"

abbrev calls : List Request
calls = (seconds 13, other) ∷ []

first_passes : (rate_limit (seconds 10) install fresh).0 ≡ ok tt
unfolding rate_limit last_seen
first_passes = refl

rate_limit_spacing_example :
    (rate_limit (seconds 14) install (after calls (rate_limit (seconds 10) install fresh).1)).0
    ≡ err slow_down
rate_limit_spacing_example =
    rate_limit_spacing (seconds 10) (seconds 14) install calls fresh first_passes
      ((omega arith, omega arith), tt) (omega arith)

abbrev pub arrival : Arrival
arrival = record { authorization = header; now = noon; mono = seconds 10 }

abbrev later_arrival : Arrival
later_arrival = record { authorization = header; now = noon + days 3; mono = seconds 10 + days 3 }

abbrev pub request : TrialStart
request = record {
  fingerprint = install;
  email = some (lit "ada@example.com");
  product = none;
  version = none;
}

abbrev response : Bool → Instant → TrialResponse
response reused at = record {
  license_file = string (file_issued at);
  expires_at = noon + days 7;
  reused = reused;
}

abbrev pub started : ServerState
started = (trial_start toy config arrival request fresh).1

trial_started : (trial_start toy config arrival request fresh).0 ≡ ok (response false noon)
unfolding trial_start check_trial_start authorize constant_time_eq as_bytes strip_prefix fold_diff
    normalize_fingerprint len to_ascii_lowercase trim is_ascii_hexdigit required_email
    validate_trial_email check_email is_control rsplit_once is_hostname is_ascii_alphanumeric split
    sign_license write_doc string_of write_file str_eq last_seen mark_seen rate_limit find_trial
    sign answer_trial grant_trial limited_trial trial_doc
trial_started = refl

trial_again :
    (trial_start toy config later_arrival request started).0 ≡ ok (response true (noon + days 3))
unfolding trial_start check_trial_start authorize constant_time_eq as_bytes strip_prefix fold_diff
    normalize_fingerprint len to_ascii_lowercase trim is_ascii_hexdigit required_email
    validate_trial_email check_email is_control rsplit_once is_hostname is_ascii_alphanumeric split
    sign_license write_doc string_of write_file str_eq last_seen mark_seen rate_limit find_trial
    sign answer_trial grant_trial limited_trial trial_doc reuse_trial new_trial parse_stored_ts
trial_again = refl

abbrev started_row : TrialRecord
started_row = record {
  fingerprint = install;
  email = some (lit "ada@example.com");
  started_at = noon ∷ [];
  expires_at = (noon + days 7) ∷ [];
  product = lit "migration-platform";
  version = [];
  last_heartbeat_at = some (noon ∷ []);
  heartbeat_count = 0;
  revoked_at = none;
  revoked_reason = none;
}

row_found : find_trial install started.trials ≡ some started_row
unfolding trial_start check_trial_start authorize constant_time_eq as_bytes strip_prefix fold_diff
    normalize_fingerprint len to_ascii_lowercase trim is_ascii_hexdigit required_email
    validate_trial_email check_email is_control rsplit_once is_hostname is_ascii_alphanumeric split
    sign_license write_doc string_of write_file str_eq last_seen mark_seen rate_limit find_trial
    sign answer_trial grant_trial limited_trial trial_doc reuse_trial new_trial parse_stored_ts
row_found = refl

-- The operator revokes another install in between.
abbrev events : List Event
events = withdraw noon other (lit "*") (lit "abuse") ∷ []

trial_continued :
    (trial_start toy config later_arrival request (serve toy config events started)).0
    ≡ ok (response true (noon + days 3))
unfolding trial_start check_trial_start authorize constant_time_eq as_bytes strip_prefix fold_diff
    normalize_fingerprint len to_ascii_lowercase trim is_ascii_hexdigit required_email
    validate_trial_email check_email is_control rsplit_once is_hostname is_ascii_alphanumeric split
    sign_license write_doc string_of write_file str_eq last_seen mark_seen rate_limit find_trial
    sign answer_trial grant_trial limited_trial trial_doc reuse_trial new_trial parse_stored_ts
    serve revoke update_trial upsert_revocation step
trial_continued = refl

trial_never_restarts_example :
    (noon + days 7 ≡ noon + days 7) × (true ≡ true) × (later_arrival.now < noon + days 7)
trial_never_restarts_example =
    trial_never_restarts toy config toy_laws arrival later_arrival request request fresh events
      (response false noon) (response true (noon + days 3)) install install_kept install_kept
      trial_started trial_continued
