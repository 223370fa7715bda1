-- ===== src/Sources/Locations.antt =====
-- apps/api/src/sources.rs: the object locations that a watched connector may name. The text that
-- `Debug` prints is an argument.
pub mod Laws
use migration_platform.Prelude.{
  ℕ, ◌++◌, Bool, true, false, not, ◌&&◌, ◌||◌, Option, none, some, is_empty, List, [], ◌∷◌, any,
  Result, ok, err, ◌>>=◌, ◌>>◌, ensure, ◌==◌, if◌then◌else◌,
}
use migration_platform.Text.{Str, lit, str_eq, trim, decimal, starts_with, split}
use migration_platform.Text.Parts.{trim_start_matches, trim_matches, join}
use migration_platform.Json.{Value, get, as_str}
use migration_platform.Api.{ApiError, ApiResult, bad_request}

unfoldable pub org_object_prefix : ℕ → Str
org_object_prefix org = lit "orgs/" ++ (decimal org ++ lit "/")

abbrev text_of : Option Value → Str
text_of none = []
text_of (some v) = elim (as_str v) [ none ↦ [] | some s ↦ trim s ]

-- The closure `text`.
unfoldable pub config_text : Str → Value → Str
config_text k cfg = text_of (get k cfg)

abbrev first_nonempty : Str → Str → Str
first_nonempty a b = if not (is_empty a) then a else b

module _ (debug_text : Str → Str) where
  unfoldable pub check_bucket : Str → List Str → ApiResult (Unit {0})
  check_bucket bucket allowed =
      if any (λ a. str_eq a bucket) allowed
      then ok tt
      else err (
          bad_request (
            lit "bucket "
            ++ (debug_text bucket
                ++ (lit " is not allowed for watched connectors; allowed: "
                    ++ join (lit ", ") allowed))))

  -- Whether a prefix stays in the namespace of the organisation.
  unfoldable pub is_confined : Str → ℕ → Bool
  is_confined prefix org =
      let p = trim_start_matches b'/' prefix in
      not (
        any (λ c. c == b'\\') p
        || any (λ seg. str_eq seg (lit "..")) (split b'/' p)
        || not (starts_with p (org_object_prefix org)))

  -- The part behind the `match`.
  unfoldable pub check_location : Str → Str → Str → ℕ → List Str → ApiResult (Unit {0})
  unfolding check_bucket is_confined
  check_location bucket prefix field org allowed = do
    check_bucket bucket allowed
    ensure (is_confined prefix org) (
        bad_request (
          field
          ++ (lit " must start with "
              ++ (org_object_prefix org ++ (lit " (got " ++ (debug_text prefix ++ lit ")"))))))

  unfoldable pub check_watched_prefix : Value → ℕ → List Str → ApiResult (Unit {0})
  unfolding check_location
  check_watched_prefix cfg org allowed =
      check_location
        (first_nonempty (config_text (lit "bucket") cfg) (config_text (lit "s3_bucket") cfg))
        (config_text (lit "prefix") cfg) (lit "prefix") org allowed

  unfoldable pub check_watched_sftp : Value → ℕ → List Str → ApiResult (Unit {0})
  unfolding check_location
  check_watched_sftp cfg org allowed =
      let bucket =
        first_nonempty (config_text (lit "staging_bucket") cfg)
          (first_nonempty (config_text (lit "bucket") cfg) (lit "migration")) in
      let prefix = config_text (lit "staging_prefix") cfg in
      let bare = trim_matches b'/' prefix in
      if is_empty bare || str_eq bare (lit "sftp-landing")
      then check_bucket bucket allowed
      else check_location bucket prefix (lit "staging_prefix") org allowed

  unfoldable pub check_connector_locations : Str → Value → ℕ → List Str → ApiResult (Unit {0})
  unfolding check_watched_prefix check_watched_sftp
  check_connector_locations kind cfg org allowed =
      if str_eq kind (lit "watched_prefix")
      then check_watched_prefix cfg org allowed
      else if str_eq kind (lit "watched_sftp")
      then check_watched_sftp cfg org allowed
      else ok tt
