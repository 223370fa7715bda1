-- ===== src/License/Signing.antt =====
-- apps/api/src/security/license.rs: signing and verifying a license file. RSA, base64, the PEM
-- formats, serde's JSON and the text that chrono prints for an instant are parameters.
pub mod Laws
use migration_platform.Prelude.{
  ℕ, ◌≡◌, Bool, true, false, List, [], ◌∷◌, ◌++◌, Option, none, some, Result, ok, err, ◌>>=◌, ◌>>◌,
  ensure, ok_or, leb, not, ◌&&◌, ◌||◌, ◌==◌,
}
use migration_platform.Text.{Str, lit, contains}
use migration_platform.Time.{Instant}
use migration_platform.Json.{Value}
use migration_platform.License.Types.{LicenseDoc}

-- `LicenseFile`
pub record LicenseFile : Type 0 where
  pub license : Value
  pub signature : Str

-- Third-party code: what it takes and gives, with `none` for its errors.
pub record Codec : Type 1 where
  pub PublicKey : Type 0
  pub PrivateKey : Type 0
  pub Signature : Type 0
  pub public_of_pem : Str → Option PublicKey
  pub private_of_pem : Str → Option PrivateKey
  pub public_of : PrivateKey → PublicKey
  pub rsa_sign : PrivateKey → Str → Signature
  pub rsa_verify : PublicKey → Str → Signature → Bool
  pub signature_of_bytes : Str → Option Signature
  pub signature_to_bytes : Signature → Str
  pub base64_encode : Str → Str
  pub base64_decode : Str → Option Str
  pub value_of_text : Str → Option Value
  pub text_of_value : Value → Option Str
  pub file_of_text : Str → Option LicenseFile
  pub pretty_of_file : LicenseFile → Option Str
  pub doc_of_value : Value → Option LicenseDoc
  pub value_of_doc : LicenseDoc → Option Value
  pub show_instant : Instant → Str
  pub debug_text : Str → Str
  pub parse_error_text : Str → Str
  pub write_error_text : Str
  pub status_text : ℕ → Str
  pub to_rfc3339 : Instant → Str
  pub parse_rfc3339 : Str → Option Instant
  pub parse_naive : Str → Option Instant

-- What `verify_license` and `sign_license` fail with, in the order of their tests.
pub data SigningError : Type 0 where
  not_json bad_base64 malformed_signature unserializable verification_failed : SigningError
  invalid_shape bad_private_key : SigningError
  doc_expired : Str → Instant → SigningError

module _ (c : Codec) where
  open c use {
    PublicKey, private_of_pem, rsa_sign, rsa_verify, signature_of_bytes, signature_to_bytes,
    base64_encode, base64_decode, text_of_value, file_of_text, pretty_of_file, doc_of_value,
    value_of_doc, show_instant, debug_text,
  }

  -- The message of the outermost context, which is what `to_string` gives.
  unfoldable pub signing_error_text : SigningError → Str
  signing_error_text not_json = lit "license file is not valid JSON"
  signing_error_text bad_base64 = lit "license signature is not valid base64"
  signing_error_text malformed_signature = lit "malformed signature"
  signing_error_text unserializable = lit "serializing license payload"
  signing_error_text verification_failed =
      lit "license signature verification FAILED (tampered or wrong key)"
  signing_error_text invalid_shape = lit "license payload has an invalid shape"
  signing_error_text bad_private_key = lit "parsing private key"
  signing_error_text (doc_expired licensee at) =
      lit "license for " ++ (debug_text licensee ++ (lit " expired at " ++ show_instant at))

  unfoldable pub canonical_bytes : Value → Result SigningError Str
  canonical_bytes license = ok_or (text_of_value license) unserializable

  unfoldable pub verify_license : Str → PublicKey → Instant → Result SigningError LicenseDoc
  unfolding canonical_bytes
  verify_license raw key now = do
    file ← ok_or (file_of_text raw) not_json
    sig_bytes ← ok_or (base64_decode file.signature) bad_base64
    signature ← ok_or (signature_of_bytes sig_bytes) malformed_signature
    payload ← canonical_bytes file.license
    ensure (rsa_verify key payload signature) verification_failed
    doc ← ok_or (doc_of_value file.license) invalid_shape
    ensure (not (leb doc.expires_at now)) (doc_expired doc.licensee doc.expires_at)
    ok doc

  unfoldable pub sign_license : LicenseDoc → Str → Result SigningError Str
  unfolding canonical_bytes
  sign_license doc private_key_pem = do
    key ← ok_or (private_of_pem private_key_pem) bad_private_key
    license ← ok_or (value_of_doc doc) unserializable
    payload ← canonical_bytes license
    let signature = rsa_sign key payload
    let file : LicenseFile = record {
      license = license;
      signature = base64_encode (signature_to_bytes signature);
    }
    ok_or (pretty_of_file file) unserializable
