-- ===== src/Vendor/Heartbeat/Presented.antt =====
-- The status with which a presented license is refused.
use migration_platform.License.Signing.{
  not_json, bad_base64, malformed_signature, unserializable, verification_failed, invalid_shape,
  bad_private_key,
}
use migration_platform.Prelude.{ℕ, ◌++◌, ◌≡◌, refl, true, arith, [], ◌∷◌}
use migration_platform.Text.{Str, lit, contains, starts_with}
use migration_platform.Time.{Instant}
use migration_platform.License.Signing.{Codec, SigningError, signing_error_text, doc_expired}
use migration_platform.Vendor.Heartbeat.{presented_error}

contains-append : (a b p : Str) → contains b p ≡ true → contains (a ++ b) p ≡ true
unfolding contains
contains-append [] b p h = h
contains-append (x ∷ a) b p h = ground (arith, contains-append a b p h)

-- 402 for an expiry, else 400.
abbrev pub status_for : SigningError → ℕ
status_for (doc_expired licensee at) = 402
status_for not_json = 400
status_for bad_base64 = 400
status_for malformed_signature = 400
status_for unserializable = 400
status_for verification_failed = 400
status_for invalid_shape = 400
status_for bad_private_key = 400

module _ (c : Codec) where
  expired_text :
      (licensee : Str) (at : Instant)
      → contains (signing_error_text c (doc_expired licensee at)) (lit "expired") ≡ true
  unfolding signing_error_text
  expired_text licensee at =
      let tail : Str = lit " expired at " ++ c.show_instant at in
      contains-append (lit "license for ") (c.debug_text licensee ++ tail) (lit "expired") (
        contains-append (c.debug_text licensee) tail (lit "expired")
          (unfold contains starts_with in refl))

  -- A presented license that fails by its expiry answers 402, and any other failure of the
  -- verification 400: the text that the handler looks for stands in the first message alone.
  pub presented_error-status : (e : SigningError) → (presented_error c e).status ≡ status_for e
  presented_error-status (doc_expired licensee at) =
      unfold presented_error in rw (expired_text licensee at)
  presented_error-status not_json =
      unfold presented_error signing_error_text contains starts_with in refl
  presented_error-status bad_base64 =
      unfold presented_error signing_error_text contains starts_with in refl
  presented_error-status malformed_signature =
      unfold presented_error signing_error_text contains starts_with in refl
  presented_error-status unserializable =
      unfold presented_error signing_error_text contains starts_with in refl
  presented_error-status verification_failed =
      unfold presented_error signing_error_text contains starts_with in refl
  presented_error-status invalid_shape =
      unfold presented_error signing_error_text contains starts_with in refl
  presented_error-status bad_private_key =
      unfold presented_error signing_error_text contains starts_with in refl
