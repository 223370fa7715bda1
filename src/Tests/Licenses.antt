-- ===== src/Tests/Licenses.antt =====
-- Documents, their use and their signatures at concrete inputs.
use migration_platform.Text.{
  is_ascii_alphanumeric, is_control, rsplit_once, split, to_ascii_lowercase, trim,
}
use migration_platform.License.Email.{check_email}
use migration_platform.Tests.Toy.{string_of, write_doc, write_file}
use migration_platform.Prelude.{◌+◌, ◌-◌, ◌≡◌, refl, true, [], ◌∷◌, ◌++◌, some, ok, arith}
use migration_platform.Text.{Str, lit, str_eq, len}
use migration_platform.Time.{Instant, seconds, hours, days, unix_epoch}
use migration_platform.License.Types.{LicenseDoc, LicenseState, trial, initial_state}
use migration_platform.License.Validity.{validity}
use migration_platform.License.Signing.{verify_license, sign_license}
use migration_platform.License.Signing.Laws.{verify-sign_license}
use migration_platform.License.Email.{is_hostname, validate_trial_email}
use migration_platform.Tests.Toy.{toy, toy_laws}

abbrev pub noon : Instant
noon = unix_epoch + seconds 1_700_000_000

abbrev pub install : Str
install = lit "0123456789abcdef"

abbrev pub pem : Str
pem = lit "k"

-- A trial of seven days that was attested an hour ago.
abbrev pub trial_license : LicenseDoc
trial_license = record {
  licensee = lit "ada@example.com";
  expires_at = noon + days 7;
  features = lit "core" ∷ [];
  max_seats = some 5;
  issued_at = some (noon - hours 1);
  kind = trial;
  fingerprint = some install;
  requires_heartbeat = true;
}

abbrev pub trial_state : LicenseState
trial_state = record initial_state { doc = some trial_license; raw = some [] }

usable_now : validity trial_license install noon ≡ ok tt
unfolding validity str_eq
usable_now = refl

-- The file of the trial license, issued at an instant, as the toy signs it.
abbrev text_issued : Instant → Str
text_issued at =
    (noon + days 7)
    ∷ 6
    ∷ (at + 1)
    ∷ 0
    ∷ 1
    ∷ 15
    ∷ (lit "ada@example.com" ++ (4 ∷ (lit "core" ++ (1 ∷ install))))

abbrev pub file_issued : Instant → Str
file_issued at = 43 ∷ (text_issued at ++ (pem ++ text_issued at))

abbrev pub trial_file : Str
trial_file = file_issued (noon - hours 1)

trial_signed : sign_license toy trial_license pem ≡ ok trial_file
unfolding sign_license write_doc string_of write_file
trial_signed = refl

verify-sign_license_example : verify_license toy trial_file pem noon ≡ ok trial_license
verify-sign_license_example =
    verify-sign_license toy toy_laws pem trial_file pem noon trial_license refl trial_signed
      (omega arith)

address_accepted : validate_trial_email (lit " Ada@Example.com ") ≡ ok (lit "ada@example.com")
unfolding validate_trial_email check_email len to_ascii_lowercase trim is_control rsplit_once
    is_hostname split is_ascii_alphanumeric
address_accepted = refl
