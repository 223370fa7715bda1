-- ===== src/Exchange/Laws.antt =====
-- What the license client makes of the answers of the license server.
use migration_platform.Prelude.{
  ◌<◌, ◌≢◌, >>=-eq-ok, ok_or-eq-ok, map_err-eq-ok, map_err, ℕ, ◌++◌, ◌≡◌, ◌⊎◌, ◌∙◌, none, some, ok,
  err, arith,
}
use migration_platform.Text.{Str, lit, str_eq, str_eq_refl}
use migration_platform.Time.{Instant}
use migration_platform.Json.{Value, get_field, get, as_str}
use migration_platform.License.Types.{LicenseDoc}
use migration_platform.License.Signing.{Codec, LicenseFile}
use migration_platform.License.Client.{
  refreshed, unavailable, judge_refresh, unwrap_license_response, unwrap_value, World, answered,
  denied, judge_status, judge_reply, extract_error_message, message_of,
}
use migration_platform.Vendor.Types.{internal_error, ServerConfig, ServerError, HeartbeatResponse}
use migration_platform.License.Signing.{sign_license}
use migration_platform.License.Signing.Laws.{CodecLaws, sign_license-file}
use migration_platform.Vendor.Trial.{sign}
use migration_platform.Exchange.{error_body, response_body, respond, write_reply}

module _ (c : Codec) where
  sign-ok :
      (cfg : ServerConfig) (doc : LicenseDoc) (v : Value)
      → sign c cfg doc ≡ ok v
      → (raw : Str) × (sign_license c doc cfg.signing_key_pem ≡ ok raw)
        × (c.value_of_text raw ≡ some v)
  unfolding sign
  sign-ok cfg doc v h =
      let signing = sign_license c doc cfg.signing_key_pem in
      let (raw, e₁, h₁) = >>=-eq-ok (map_err (λ e. internal_error) signing) _ h in
      (raw, map_err-eq-ok _ signing e₁, ok_or-eq-ok _ _ h₁)

  write_reply-text :
      (status : ℕ) (body : Value) (text : Str)
      → c.text_of_value body ≡ some text
      → write_reply c status body ≡ answered status text
  unfolding write_reply
  write_reply-text status body text written = rw (written, write_reply)

module _ (c : Codec) (instant_value : Instant → Value) where
  -- The documented round trips of serde_json: the error and the answer of a heartbeat are written,
  -- and read back as they were, and a license file that was read as a value and is written again
  -- reads as the same file.
  pub record JsonLaws : Type 0 where
    pub error_reads :
        (code message : Str)
        → (text : Str) × (c.text_of_value (error_body code message) ≡ some text)
          × (c.value_of_text text ≡ some (error_body code message))
    pub response_reads :
        (r : HeartbeatResponse) (doc : LicenseDoc) (file : LicenseFile) (signed : Str)
        → c.value_of_doc doc ≡ some file.license
        → c.pretty_of_file file ≡ some signed
        → c.value_of_text signed ≡ some r.license_file
        → (text : Str) × (c.text_of_value (response_body c instant_value r) ≡ some text)
          × (c.value_of_text text ≡ some (response_body c instant_value r))
    pub file_reads_again :
        (doc : LicenseDoc) (file : LicenseFile) (signed : Str) (v : Value)
        → c.value_of_doc doc ≡ some file.license
        → c.pretty_of_file file ≡ some signed
        → c.value_of_text signed ≡ some v
        → (text : Str) × (c.text_of_value v ≡ some text) × (c.file_of_text text ≡ some file)

  extract-error_body :
      (code message text : Str)
      → c.value_of_text text ≡ some (error_body code message)
      → extract_error_message c text ≡ message
  unfolding extract_error_message message_of get get_field as_str str_eq
  extract-error_body code message text reads = rw (reads, extract_error_message)

  module _ (w : World) (url fp : Str) (key : c.PublicKey) where
    respond-err :
        (laws : JsonLaws) (e : ServerError)
        → (text : Str) × (c.value_of_text text ≡ some (error_body e.code e.message))
          × (judge_reply c w url fp key (respond c instant_value (err e))
              ≡ judge_status c w.now fp key e.status text)
    respond-err laws e =
        let (text, written, reads) = laws.error_reads e.code e.message in
        let body = error_body e.code e.message in
        let p = write_reply-text c e.status body text written in
        (text, reads, unfold respond judge_reply in rw p)

    -- A refusal that is one for the client too ends with the server's message.
    pub judge-refused :
        (laws : JsonLaws) (e : ServerError)
        → (e.status ≡ 402) ⊎ (e.status ≡ 403)
        → judge_reply c w url fp key (respond c instant_value (err e)) ≡ denied e.status e.message
    judge-refused laws e refusal =
        let (text, reads, p) = respond-err laws e in
        p
        ∙ (unfold judge_status in
            ground (arith, refusal, extract-error_body e.code e.message text reads))

    -- The client does not take any other error of the server for a decision.
    pub judge-unavailable :
        (laws : JsonLaws) (e : ServerError)
        → e.status ≢ 200
        → e.status ≢ 402
        → e.status ≢ 403
        → (why : Str) × (judge_reply c w url fp key (respond c instant_value (err e))
            ≡ unavailable why)
    judge-unavailable laws e n₁ n₂ n₃ =
        let (text, reads, p) = respond-err laws e in
        (
          lit "license server returned " ++ (c.status_text e.status ++ (lit ": " ++ text)),
          p ∙ (unfold judge_status in ground (arith, n₁, n₂, n₃)),
        )

    unwrap-response :
        (r : HeartbeatResponse) (text raw : Str)
        → c.value_of_text text ≡ some (response_body c instant_value r)
        → c.text_of_value r.license_file ≡ some raw
        → unwrap_license_response c text ≡ ok raw
    unfolding unwrap_license_response unwrap_value get get_field str_eq
    unwrap-response r text raw reads written = rw (reads, unwrap_license_response, written)

    -- An answer whose license file is the signed document refreshes the client's license with it.
    pub judge-refreshed :
        (codec : CodecLaws c) (laws : JsonLaws) (cfg : ServerConfig) (k : c.PrivateKey)
        (doc : LicenseDoc) (r : HeartbeatResponse)
        → c.private_of_pem cfg.signing_key_pem ≡ some k
        → key ≡ c.public_of k
        → sign c cfg doc ≡ ok r.license_file
        → doc.fingerprint ≡ some fp
        → w.now < doc.expires_at
        → (raw : Str) × (judge_reply c w url fp key (respond c instant_value (ok r))
            ≡ refreshed (record { doc = doc; raw = raw; store_stamp = none }))
    judge-refreshed codec laws cfg k doc r ek same signed bound ahead =
        let (signed_text, s₁, s₂) = sign-ok c cfg doc r.license_file signed in
        let (file, v, p, verifies) =
          sign_license-file c codec cfg.signing_key_pem signed_text k doc ek s₁ in
        let (text, written, reads) = laws.response_reads r doc file signed_text v p s₂ in
        let (raw, t₁, t₂) = laws.file_reads_again doc file signed_text r.license_file v p s₂ in
        let body = response_body c instant_value r in
        (
          raw,
          unfold respond judge_reply judge_status judge_refresh in
              rw (write_reply-text c 200 body text written) (
                ground (
                  arith,
                  same,
                  bound,
                  unwrap-response r text raw reads t₁,
                  verifies raw w.now t₂ ahead,
                  str_eq_refl fp,
                )),
        )
