-- ===== src/Api.antt =====
-- apps/api/src/error.rs: the errors of the handlers and the HTTP answers that they become. An error
-- of a library is kept as its text.
use migration_platform.Prelude.{ℕ, ◌++◌, ◌≡◌, Result, arith}
use migration_platform.Text.{Str, lit}

pub data ApiError : Type 0 where
  not_found forbidden unauthorized : ApiError
  license_required bad_request conflict validation_failed external : Str → ApiError
  database json io internal : Str → ApiError

abbrev pub ApiResult : Type 0 → Type 0
ApiResult A = Result ApiError A

unfoldable pub status_and_code : ApiError → ℕ × Str
status_and_code not_found = (404, lit "not_found")
status_and_code forbidden = (403, lit "forbidden")
status_and_code (license_required why) = (402, lit "license_required")
status_and_code unauthorized = (401, lit "unauthorized")
status_and_code (bad_request why) = (400, lit "bad_request")
status_and_code (validation_failed why) = (422, lit "validation_failed")
status_and_code (conflict why) = (409, lit "conflict")
status_and_code (database why) = (500, lit "internal_error")
status_and_code (json why) = (500, lit "internal_error")
status_and_code (io why) = (500, lit "internal_error")
status_and_code (internal why) = (500, lit "internal_error")
status_and_code (external why) = (502, lit "external_error")

-- `Display`
unfoldable pub error_text : ApiError → Str
error_text not_found = lit "not found"
error_text forbidden = lit "forbidden"
error_text (license_required why) = lit "license required: " ++ why
error_text unauthorized = lit "unauthorized"
error_text (bad_request why) = lit "bad request: " ++ why
error_text (conflict why) = lit "conflict: " ++ why
error_text (validation_failed why) = lit "validation failed: " ++ why
error_text (database why) = lit "database error"
error_text (json why) = lit "json error"
error_text (io why) = lit "io error"
error_text (external why) = lit "external service error: " ++ why
error_text (internal why) = lit "internal error"

-- `into_response`: the status, the code and the message of the body. What the client sees of an
-- internal error is a fixed text.
unfoldable pub into_response : ApiError → ℕ × Str × Str
unfolding status_and_code error_text
into_response e = let (status, code) = status_and_code e in (status, code, response_message e)
  where
    response_message : ApiError → Str
    response_message (database why) = lit "An unexpected error occurred"
    response_message (json why) = lit "An unexpected error occurred"
    response_message (io why) = lit "An unexpected error occurred"
    response_message (internal why) = lit "An unexpected error occurred"
    response_message not_found = error_text not_found
    response_message forbidden = error_text forbidden
    response_message unauthorized = error_text unauthorized
    response_message (license_required why) = error_text (license_required why)
    response_message (bad_request why) = error_text (bad_request why)
    response_message (conflict why) = error_text (conflict why)
    response_message (validation_failed why) = error_text (validation_failed why)
    response_message (external why) = error_text (external why)

-- No answer to a client depends on the text of a database, JSON, I/O or internal error.
pub into_response_redacts :
    (a b : Str)
    → (into_response (database a) ≡ into_response (database b))
      × (into_response (json a) ≡ into_response (io b))
      × (into_response (internal a) ≡ into_response (database b))
unfolding into_response
into_response_redacts a b = ground arith
