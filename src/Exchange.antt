-- ===== src/Exchange.antt =====
-- apps/api/src/license_server.rs as the license client of apps/api/src/security/license.rs meets it:
-- the route of the heartbeat, the JSON of its request and of its answers. The form that serde gives
-- an instant and the texts of axum's rejections are arguments; the time limit is left out.
pub mod Laws
pub mod Delivery
pub mod Renewal
pub mod Withdrawal
pub mod WellKept
pub mod Upkeep
use migration_platform.Prelude.{
  ℕ, ◌*◌, ◌++◌, Option, none, some, Result, ok, err, length, ltb, if◌then◌else◌,
}
use migration_platform.Text.{Str, lit, as_bytes}
use migration_platform.Time.{Instant}
use migration_platform.Json.{
  Value, Values, Fields, null, bool, number, string, array, object, nil, cons, end, field,
  get_field,
}
use migration_platform.License.Signing.{Codec}
use migration_platform.License.Client.{HttpReply, answered}
use migration_platform.Vendor.Types.{
  ServerConfig, ServerState, ServerError, Arrival, HeartbeatRequest, HeartbeatResponse,
}
use migration_platform.Vendor.Heartbeat.{heartbeat}

-- An `Option<String>` with a default, by its value; the outer `none` is an error.
unfoldable pub optional_text : Option Value → Option (Option Str)
optional_text none = some none
optional_text (some null) = some none
optional_text (some (string s)) = some (some s)
optional_text (some (bool b)) = none
optional_text (some (number n)) = none
optional_text (some (array vs)) = none
optional_text (some (object fs)) = none

-- A `String` that must be there.
unfoldable pub required_text : Option Value → Option Str
required_text (some (string s)) = some s
required_text (some null) = none
required_text (some (bool b)) = none
required_text (some (number n)) = none
required_text (some (array vs)) = none
required_text (some (object fs)) = none
required_text none = none

-- The four members of a heartbeat request, each with its absence.
unfoldable pub request_of :
    Option Value → Option Value → Option Value → Option Value → Option HeartbeatRequest
unfolding required_text optional_text
request_of fingerprint license_file product version = elim (required_text fingerprint) [
  | none ↦ none
  | some fp ↦ elim license_file [
    | none ↦ none
    | some file ↦ elim (optional_text product) [
      | none ↦ none
      | some p ↦ elim (optional_text version) [
        | none ↦ none
        | some v ↦ some (record { fingerprint = fp; license_file = file; product = p; version = v })
      ]
    ]
  ]
]

-- `HeartbeatRequest`'s derived reader: an object with these fields, or their values in order.
unfoldable pub read_request : Value → Option HeartbeatRequest
unfolding request_of get_field
read_request (object fs) =
    request_of (get_field (lit "fingerprint") fs) (get_field (lit "license_file") fs)
      (get_field (lit "product") fs) (get_field (lit "version") fs)
read_request (array (cons f (cons file nil))) = request_of (some f) (some file) none none
read_request (array (cons f (cons file (cons p nil)))) =
    request_of (some f) (some file) (some p) none
read_request (array (cons f (cons file (cons p (cons v nil))))) =
    request_of (some f) (some file) (some p) (some v)
read_request v = none

-- `json!({ "error": { "code": …, "message": … } })`
abbrev pub error_body : Str → Str → Value
error_body code message = object (
    field (lit "error")
      (object (field (lit "code") (string code) (field (lit "message") (string message) end))) end)

-- The header that `bearer_auth` sets.
abbrev pub bearer_auth : Str → Option Str
bearer_auth token = some (lit "Bearer " ++ token)

abbrev pub body_limit : ℕ
body_limit = 32 * 1024

module _ (c : Codec) where
  -- axum's `Json`: what cannot be written answers 500.
  unfoldable pub write_reply : ℕ → Value → HttpReply
  write_reply status body = elim (c.text_of_value body) [
    | none ↦ answered 500 c.write_error_text
    | some text ↦ answered status text
  ]

module _ (c : Codec) (instant_value : Instant → Value) where
  -- The fields of `HeartbeatResponse`, in the order in which a reader's map has them.
  abbrev pub response_body : HeartbeatResponse → Value
  response_body r = object (
      field (lit "expires_at") (instant_value r.expires_at) (
        field (lit "issued_at") (instant_value r.issued_at)
          (field (lit "license_file") r.license_file end)))

  unfoldable pub respond : Result ServerError HeartbeatResponse → HttpReply
  unfolding write_reply
  respond (ok r) = write_reply c 200 (response_body r)
  respond (err e) = write_reply c e.status (error_body e.code e.message)

  module _ (rejection : ℕ → Str) (cfg : ServerConfig) where
    unfoldable pub handle_json :
        Arrival → Option HeartbeatRequest → ServerState → HttpReply × ServerState
    handle_json arrival none s = (answered 422 (rejection 422), s)
    handle_json arrival (some req) s =
        let (r, s') = heartbeat c cfg arrival req s in (respond r, s')

    -- `.route("/v1/heartbeat", post(heartbeat))` behind `DefaultBodyLimit`
    unfoldable pub post_heartbeat : Arrival → Str → ServerState → HttpReply × ServerState
    post_heartbeat arrival text s =
        if ltb body_limit (length (as_bytes text))
        then (answered 413 (rejection 413), s)
        else elim (c.value_of_text text) [
          | none ↦ (answered 400 (rejection 400), s)
          | some v ↦ handle_json arrival (read_request v) s
        ]
