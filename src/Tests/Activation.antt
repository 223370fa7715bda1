-- ===== src/Tests/Activation.antt =====
-- The activation of a trial at a concrete input.
use migration_platform.Prelude.{◌≡◌, refl, none, some, ok}
use migration_platform.Text.{
  lit, str_eq, len, is_control, rsplit_once, is_ascii_alphanumeric, split, trim, to_ascii_lowercase,
  trim_end_matches,
}
use migration_platform.License.Types.{LoadedLicense, kind_eq, opt_eq}
use migration_platform.License.Signing.{verify_license}
use migration_platform.License.Email.{validate_trial_email, check_email, is_hostname}
use migration_platform.License.Client.{
  World, answered, from_env, load_public_key, unwrap_license_response,
}
use migration_platform.License.Startup.{activate_trial_phone_home}
use migration_platform.Json.{get}
use migration_platform.Tests.Toy.{toy, string_of, doc_of, read_doc, file_of, drop}
use migration_platform.Tests.Licenses.{noon, install, pem, trial_license, trial_file}

abbrev online : World
online = record {
  now = noon;
  var = λ name. some (lit "value");
  read_file = λ path. some pem;
  file_stamp = λ path. none;
  persist = λ raw. ok none;
  http = λ url token body. answered 200 trial_file;
  embedded_pem = pem;
  version = lit "1";
}

abbrev activated : LoadedLicense
activated = record { doc = trial_license; raw = trial_file; store_stamp = none }

trial_activated :
    activate_trial_phone_home toy online install (lit "ada@example.com") ≡ ok activated
unfolding activate_trial_phone_home validate_trial_email check_email len is_control rsplit_once
    is_ascii_alphanumeric split trim to_ascii_lowercase is_hostname from_env trim_end_matches
    unwrap_license_response get load_public_key verify_license string_of doc_of read_doc file_of
    drop str_eq kind_eq opt_eq
trial_activated = refl
