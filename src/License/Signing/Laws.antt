-- ===== src/License/Signing/Laws.antt =====
-- A signed document verifies, and what verifies was signed and has not expired.
use migration_platform.Prelude.{◌≡◌, ◌<◌, true, some, ok, arith, ok_or, >>=-eq-ok, ok_or-eq-ok}
use migration_platform.Text.{Str}
use migration_platform.Time.{Instant}
use migration_platform.Json.{Value}
use migration_platform.License.Types.{LicenseDoc}
use migration_platform.License.Signing.{
  Codec, LicenseFile, not_json, bad_base64, malformed_signature, unserializable, bad_private_key,
  canonical_bytes, verify_license, sign_license,
}

-- The documented round trips of the libraries: what each encoder gives, its decoder reads back, and
-- a signature verifies under the public half of its key.
pub record CodecLaws (c : Codec) : Type 0 where
  pub rsa_verifies :
      (k : c.PrivateKey) (m : Str) → c.rsa_verify (c.public_of k) m (c.rsa_sign k m) ≡ true
  pub signature_reads : (s : c.Signature) → c.signature_of_bytes (c.signature_to_bytes s) ≡ some s
  pub base64_reads : (b : Str) → c.base64_decode (c.base64_encode b) ≡ some b
  pub file_reads :
      (f : LicenseFile) (t : Str) → c.pretty_of_file f ≡ some t → c.file_of_text t ≡ some f
  pub doc_reads :
      (d : LicenseDoc) (v : Value) → c.value_of_doc d ≡ some v → c.doc_of_value v ≡ some d
  pub instant_reads : (t : Instant) → c.parse_rfc3339 (c.to_rfc3339 t) ≡ some t

module _ (c : Codec) where
  -- The document of a file that verifies is read from the payload whose canonical bytes the
  -- signature covers, and it has not expired.
  pub verify_license_sound :
      (raw : Str) (key : c.PublicKey) (now : Instant) (doc : LicenseDoc)
      → verify_license c raw key now ≡ ok doc
      → (file : LicenseFile) × (payload : Str) × (signature : c.Signature) × (c.file_of_text raw
          ≡ some file)
        × (c.text_of_value file.license ≡ some payload)
        × (c.rsa_verify key payload signature ≡ true)
        × (c.doc_of_value file.license ≡ some doc)
        × (now < doc.expires_at)
  unfolding verify_license
  verify_license_sound raw key now doc h =
      let (file, f, h₁) = >>=-eq-ok (ok_or (c.file_of_text raw) not_json) _ h in
      let (bytes, b, h₂) = >>=-eq-ok (ok_or (c.base64_decode file.signature) bad_base64) _ h₁ in
      let (signature, s, h₃) =
        >>=-eq-ok (ok_or (c.signature_of_bytes bytes) malformed_signature) _ h₂ in
      let (payload, p, h₄) = >>=-eq-ok (canonical_bytes c file.license) _ h₃ in
      (
        file,
        payload,
        signature,
        ok_or-eq-ok _ _ f,
        ok_or-eq-ok _ _ p,
        ground arith,
        ground arith,
        ground arith,
      )

  -- The file that is signed for a document, and what a text that reads as that file gives.
  pub sign_license-file :
      (laws : CodecLaws c) (pem raw : Str) (k : c.PrivateKey) (doc : LicenseDoc)
      → c.private_of_pem pem ≡ some k
      → sign_license c doc pem ≡ ok raw
      → (file : LicenseFile) × (c.value_of_doc doc ≡ some file.license)
        × (c.pretty_of_file file ≡ some raw)
        × ((text : Str) (now : Instant)
            → c.file_of_text text ≡ some file
            → now < doc.expires_at
            → verify_license c text (c.public_of k) now ≡ ok doc)
  unfolding verify_license sign_license
  sign_license-file laws pem raw k doc pk s =
      let (key, e, s₁) = >>=-eq-ok (ok_or (c.private_of_pem pem) bad_private_key) _ s in
      let (v, ev, s₂) = >>=-eq-ok (ok_or (c.value_of_doc doc) unserializable) _ s₁ in
      let (payload, ep, s₃) = >>=-eq-ok (canonical_bytes c v) _ s₂ in
      let signature = c.rsa_sign key payload in
      let file : LicenseFile = record {
        license = v;
        signature = c.base64_encode (c.signature_to_bytes signature);
      } in
      (
        file,
        ok_or-eq-ok _ _ ev,
        ok_or-eq-ok _ _ s₃,
        λ text now f h. ground (
          arith,
          ok_or-eq-ok _ _ e,
          ok_or-eq-ok _ _ ep,
          laws.base64_reads (c.signature_to_bytes signature),
          laws.signature_reads signature,
          laws.rsa_verifies key payload,
          laws.doc_reads doc v (ok_or-eq-ok _ _ ev),
        ),
      )

  -- A file that `sign_license` writes verifies under the public half of the signing key, and gives
  -- back the document that was signed, as long as that has not expired.
  pub verify-sign_license :
      (laws : CodecLaws c) (pem raw : Str) (k : c.PrivateKey) (now : Instant) (doc : LicenseDoc)
      → c.private_of_pem pem ≡ some k
      → sign_license c doc pem ≡ ok raw
      → now < doc.expires_at
      → verify_license c raw (c.public_of k) now ≡ ok doc
  verify-sign_license laws pem raw k now doc pk s h =
      let (file, v, p, verifies) = sign_license-file laws pem raw k doc pk s in
      verifies raw now (laws.file_reads file raw p) h
