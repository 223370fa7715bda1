-- ===== src/License/Client.antt =====
-- apps/api/src/security/license.rs: the process's own side of the license: loading and storing the
-- file, the exchange with the license server, and one background tick. A tick reads the clock once.
use migration_platform.Prelude.{
  ℕ, ◌++◌, Bool, false, ◌&&◌, ◌||◌, not, [], Option, none, some, is_some, Result, ok, err, ◌>>=◌,
  ◌>>◌, ensure, ok_or, map_err, take, ◌==◌, if◌then◌else◌,
}
use migration_platform.Text.{
  Str, lit, str_eq, trim, trim_end_matches, filter_opt, nonempty, nonblank,
}
use migration_platform.Time.{Instant}
use migration_platform.Json.{Value, string, object, field, end, get, as_str}
use migration_platform.License.Types.{LoadedLicense, Stamp}
use migration_platform.License.Signing.{Codec, verify_license, signing_error_text}

-- What one HTTP exchange came to.
pub data HttpReply : Type 0 where
  build_failed send_failed body_failed : Str → HttpReply
  answered : ℕ → Str → HttpReply

-- The machine that a handler runs on, at one instant: the clock, the environment variables, the
-- files as that instant finds them, and what the license server answers to a request. `persist` writes
-- the store file and gives its new stamp, or the error of a file operation; a write shows in the files
-- of the worlds of later instants.
pub record World : Type 0 where
  pub now : Instant
  pub var : Str → Option Str
  pub read_file : Str → Option Str
  pub file_stamp : Str → Option Stamp
  pub persist : Str → Result Str (Option Stamp)
  pub http : Str → Str → Value → HttpReply
  pub embedded_pem : Str
  pub version : Str

pub record LicenseServer : Type 0 where
  pub base_url : Str
  pub token : Str

pub data HeartbeatOutcome : Type 0 where
  refreshed : LoadedLicense → HeartbeatOutcome
  denied : ℕ → Str → HeartbeatOutcome
  unavailable : Str → HeartbeatOutcome

-- `LicenseServer::from_env`
unfoldable pub from_env : World → Option LicenseServer
from_env w = elim (filter_opt nonblank (w.var (lit "LICENSE_SERVER_URL"))) [
  | none ↦ none
  | some base_url ↦ elim (filter_opt nonblank (w.var (lit "LICENSE_SERVER_TOKEN"))) [
    | none ↦ none
    | some token ↦ some (record { base_url = trim_end_matches b'/' (trim base_url); token = token })
  ]
]

unfoldable pub store_path : World → Str
store_path w = elim (filter_opt nonempty (w.var (lit "LICENSE_STORE_PATH"))) [
  | none ↦ lit "/var/lib/migration/license.json"
  | some path ↦ path
]

abbrev or_text : Option Str → Str → Str
or_text none d = d
or_text (some s) d = s

abbrev is_bound_to : Option Str → Str → Bool
is_bound_to none fp = false
is_bound_to (some bound) fp = str_eq bound fp

-- The body of a heartbeat request; `json!` keeps the keys in order.
abbrev pub heartbeat_body : Str → Value → Str → Value
heartbeat_body fp license_file version = object (
    field (lit "fingerprint") (string fp) (
      field (lit "license_file") license_file (
        field (lit "product") (string (lit "migration-platform"))
          (field (lit "version") (string version) end))))

module _ (c : Codec) where
  unfoldable pub load_public_key : World → Result Str c.PublicKey
  load_public_key w = do
    pem ← elim (filter_opt nonempty (w.var (lit "LICENSE_PUBLIC_KEY_PATH"))) [
      | some p ↦ ok_or (w.read_file p) (lit "reading " ++ p)
      | none ↦ ok w.embedded_pem
    ]
    ok_or (c.public_of_pem pem) (lit "parsing license public key")

  -- A file that is bound to another install is refused here.
  unfoldable pub load_and_verify_path : World → Str → c.PublicKey → Str → Result Str LoadedLicense
  load_and_verify_path w path key fp = do
    raw ← ok_or (w.read_file path) (lit "reading license file " ++ path)
    doc ← map_err (signing_error_text c) (verify_license c raw key w.now)
    ensure (not (is_some doc.fingerprint) || is_bound_to doc.fingerprint fp) (
        lit "license fingerprint mismatch (license bound to "
        ++ (take 12 (or_text doc.fingerprint [])
            ++ (lit ", this install is " ++ (take 12 fp ++ lit ")"))))
    let store_stamp : Option Stamp =
        if str_eq path (store_path w) then w.file_stamp (store_path w) else none
    ok (record { doc = doc; raw = raw; store_stamp = store_stamp })

  -- The three shapes of a response, else the body itself.
  unfoldable pub unwrap_value : Str → Value → Result Str Str
  unwrap_value raw v =
      if is_some (get (lit "license") v) && is_some (get (lit "signature") v)
      then ok raw
      else elim (get (lit "license_file") v) [
        | some inner ↦ ok_or (c.text_of_value inner) c.write_error_text
        | none ↦ elim (get (lit "license_json") v) [
          | some x ↦ ok (or_text (as_str x) raw)
          | none ↦ ok raw
        ]
      ]

  unfoldable pub unwrap_license_response : Str → Result Str Str
  unfolding unwrap_value
  unwrap_license_response raw = elim (c.value_of_text raw) [
    | some v ↦ unwrap_value raw v
    | none ↦ ok raw
  ]

  -- `error.message`, or `error` itself, if that is a text.
  unfoldable pub message_of : Value → Option Str
  message_of v = elim (get (lit "error") v) [
    | none ↦ none
    | some e ↦ elim (get (lit "message") e) [ some m ↦ as_str m | none ↦ as_str e ]
  ]

  unfoldable pub extract_error_message : Str → Str
  unfolding message_of
  extract_error_message text = elim (c.value_of_text text) [
    | none ↦ take 200 (trim text)
    | some v ↦ or_text (message_of v) (take 200 (trim text))
  ]

  -- What a response of status 200 is taken for.
  unfoldable pub judge_refresh : Instant → Str → Str → c.PublicKey → HeartbeatOutcome
  judge_refresh now fp text key = elim (unwrap_license_response text) [
    | err e ↦ unavailable e
    | ok raw_file ↦ elim (verify_license c raw_file key now) [
      | err e ↦ unavailable (lit "heartbeat response rejected: " ++ signing_error_text c e)
      | ok doc ↦
          if is_bound_to doc.fingerprint fp
          then refreshed (record { doc = doc; raw = raw_file; store_stamp = none })
          else unavailable (lit "heartbeat response is bound to a different install")
    ]
  ]

  -- `match status`: only 402 and 403 are refusals.
  unfoldable pub judge_status : Instant → Str → c.PublicKey → ℕ → Str → HeartbeatOutcome
  judge_status now fp key status text =
      if status == 200
      then judge_refresh now fp text key
      else if (status == 402) || (status == 403)
      then denied status (extract_error_message text)
      else unavailable
          (lit "license server returned " ++ (c.status_text status ++ (lit ": " ++ text)))

  -- What the exchange came to; the errors of the transport are kept as text.
  unfoldable pub judge_reply : World → Str → Str → c.PublicKey → HttpReply → HeartbeatOutcome
  judge_reply w url fp key (build_failed e) = unavailable e
  judge_reply w url fp key (send_failed e) =
      unavailable (lit "calling " ++ (url ++ (lit ": " ++ e)))
  judge_reply w url fp key (body_failed e) = unavailable (lit "reading response: " ++ e)
  judge_reply w url fp key (answered status text) = judge_status w.now fp key status text

  unfoldable pub heartbeat_once : World → LicenseServer → Str → Str → c.PublicKey → HeartbeatOutcome
  heartbeat_once w server fp raw_license key =
      let url = server.base_url ++ lit "/v1/heartbeat" in
      elim (c.value_of_text raw_license) [
        | none ↦ unavailable (lit "stored license unreadable: " ++ c.parse_error_text raw_license)
        | some license_file ↦
            judge_reply w url fp key
              (w.http url server.token (heartbeat_body fp license_file w.version))
      ]
