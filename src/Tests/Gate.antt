-- ===== src/Tests/Gate.antt =====
-- The gate, the adoption of a stored license and a tick, at concrete inputs.
use migration_platform.License.Client.{judge_reply}
use migration_platform.License.Tick.{record_outcome}
use migration_platform.Text.{trim, trim_end_matches}
use migration_platform.License.Validity.{problem_for}
use migration_platform.Prelude.{
  ◌+◌, ◌≡◌, ◌≢◌, refl, true, false, List, [], ◌∷◌, Option, none, some, ok, err, arith,
  if◌then◌else◌,
}
use migration_platform.Text.{Str, lit, str_eq}
use migration_platform.Time.{days}
use migration_platform.License.Types.{LicenseDoc, LicenseState, commercial, initial_state, doc_eq}
use migration_platform.License.Validity.{validity, is_licensed}
use migration_platform.License.Heartbeat.{denial, should_adopt, require_licensed}
use migration_platform.License.Heartbeat.Laws.{should_adopt_asymmetric}
use migration_platform.License.Client.{
  World, LicenseServer, body_failed, heartbeat_once, from_env, load_public_key,
}
use migration_platform.License.Tick.{heartbeat_tick, attempt, attempt_if_held}
use migration_platform.License.Tick.Laws.{heartbeat_tick-Silent}
use migration_platform.Tests.Toy.{toy}
use migration_platform.Tests.Licenses.{noon, install, pem, trial_license, trial_state, trial_file}

-- A commercial license for the same install.
abbrev commercial_license : LicenseDoc
commercial_license = record trial_license { kind = commercial; expires_at = noon + days 300 }

abbrev commercial_state : LicenseState
commercial_state = record trial_state { doc = some commercial_license }

trial_licensed : is_licensed trial_state install noon ≡ true
unfolding is_licensed validity str_eq
trial_licensed = refl

commercial_licensed : is_licensed commercial_state install noon ≡ true
unfolding is_licensed validity str_eq
commercial_licensed = refl

commercial_adopted : should_adopt trial_state commercial_license install noon ≡ true
unfolding should_adopt doc_eq str_eq validity problem_for
commercial_adopted = refl

should_adopt_asymmetric_example : should_adopt commercial_state trial_license install noon ≡ false
should_adopt_asymmetric_example =
    should_adopt_asymmetric trial_state commercial_state trial_license commercial_license install
      noon refl refl trial_licensed commercial_licensed commercial_adopted

refused : require_licensed true initial_state install noon ≡ err (denial none)
unfolding require_licensed problem_for
refused = refl

-- A machine on which the server is set, but no response is ever complete.
abbrev var_of : List (Str × Str) → Str → Option Str
var_of [] k = none
var_of ((j, v) ∷ rest) k = if str_eq j k then some v else var_of rest k

abbrev offline : World
offline = record {
  now = noon;
  var = var_of (
      (lit "LICENSE_SERVER_URL", lit "https://license")
      ∷ (lit "LICENSE_SERVER_TOKEN", lit "token")
      ∷ []);
  read_file = λ path. none;
  file_stamp = λ path. none;
  persist = λ raw. ok none;
  http = λ url token body. body_failed (lit "reset");
  embedded_pem = pem;
  version = lit "1";
}

heartbeat_tick-Silent_example :
    is_licensed (heartbeat_tick toy offline install trial_state) install noon ≡ true
heartbeat_tick-Silent_example =
    heartbeat_tick-Silent toy offline install trial_state
      (λ url token body status text e. absurd (ground (arith, e))) trial_licensed

abbrev license_server : LicenseServer
license_server = record { base_url = lit "https://license"; token = lit "token" }

server_set : from_env offline ≡ some license_server
unfolding from_env str_eq trim trim_end_matches
server_set = refl

key_read : load_public_key toy offline ≡ ok pem
unfolding load_public_key str_eq
key_read = refl

abbrev attempted : LicenseState
attempted = attempt_if_held toy offline install (some trial_file) (some trial_license) trial_state

attempted_doc : attempted.doc ≡ some trial_license
unfolding attempt_if_held attempt from_env str_eq trim load_public_key record_outcome heartbeat_once
    judge_reply
attempted_doc = refl

attempted_reason : attempted.last_heartbeat_error ≡ some (lit "reading response: reset")
unfolding attempt_if_held attempt from_env str_eq trim load_public_key record_outcome heartbeat_once
    judge_reply
attempted_reason = refl

attempted_error : attempted.last_heartbeat_error ≢ none
attempted_error e = cc (attempted_reason, e)
