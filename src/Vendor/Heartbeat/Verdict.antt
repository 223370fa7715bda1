-- ===== src/Vendor/Heartbeat/Verdict.antt =====
-- When a heartbeat is answered, refused, and what the answer attests.
use migration_platform.License.Signing.Laws.{verify_license_sound}
use migration_platform.Vendor.Heartbeat.{check_heartbeat, limited_heartbeat, heartbeat}
use migration_platform.Vendor.Guards.{authorize}
use migration_platform.Prelude.{◌∙◌}
use migration_platform.Prelude.{
  ◌<◌, ◌≡◌, sym, ap, true, Option, none, some, ok, Result, arith, Result-cases, Option-cases, inl,
  inr, >>=-eq-ok, ok_or-eq-ok, ensure-eq-ok, map_err-eq-ok, map_err, ok_or, ensure,
}
use migration_platform.Text.{Str, str_eq_iff}
use migration_platform.Time.{Instant}
use migration_platform.License.Types.{LicenseDoc, LicenseKind, trial, commercial}
use migration_platform.License.Signing.{Codec, verify_license}
use migration_platform.Vendor.Types.{
  ServerConfig, TrialRecord, ServerState, ServerError, Arrival, HeartbeatRequest, HeartbeatResponse,
  internal_error,
}
use migration_platform.Vendor.Guards.{rate_limit, normalize_fingerprint}
use migration_platform.Vendor.Guards.Limiter.{rate_limit-tables}
use migration_platform.Vendor.Store.{find_trial, find_revocation, parse_stored_ts}
use migration_platform.Vendor.Trial.{sign}
use migration_platform.Vendor.Heartbeat.{
  check_presented, presented_error, is_bound_to, trial_expiry, settle_trial, reattest,
  answer_heartbeat, attest,
}

bound_to-eq : (o : Option Str) (fp : Str) → is_bound_to o fp ≡ true → o ≡ some fp
bound_to-eq none fp h = cc
bound_to-eq (some b) fp h = ap some ((str_eq_iff b fp).0 h)

check_heartbeat-fp :
    (cfg : ServerConfig) (a : Arrival) (req : HeartbeatRequest) (fp : Str)
    → check_heartbeat cfg a req ≡ ok fp
    → normalize_fingerprint req.fingerprint ≡ ok fp
unfolding check_heartbeat
check_heartbeat-fp cfg a req fp h =
    let (u, auth, h₁) = >>=-eq-ok (authorize cfg a.authorization) _ h in
    map_err-eq-ok _ (normalize_fingerprint req.fingerprint) h₁

module _ (c : Codec) where
  trial_expiry-ok :
      (now : Instant) (row : TrialRecord) (t : Instant)
      → trial_expiry c now row ≡ ok t
      → (row.revoked_reason ≡ none) × (parse_stored_ts c row.expires_at ≡ some t) × (now < t)
  unfolding trial_expiry
  trial_expiry-ok now row t h = ground arith

  -- The document of a settled heartbeat is the presented one with an expiry still ahead, which is
  -- the row's where the license is a trial and the install has a row.
  settle_trial-ok :
      (now : Instant) (fp : Str) (req : HeartbeatRequest) (doc : LicenseDoc) (kind : LicenseKind)
      (held : Option TrialRecord) (s : ServerState) (settled : LicenseDoc)
      → now < doc.expires_at
      → (settle_trial c now fp req doc kind held s).0 ≡ ok settled
      → (settled ≡ record doc { expires_at = settled.expires_at })
        × (now < settled.expires_at)
        × (kind ≡ trial
            → (row : TrialRecord) → held ≡ some row
            → (row.revoked_reason ≡ none)
              × (parse_stored_ts c row.expires_at ≡ some settled.expires_at))
  unfolding settle_trial
  settle_trial-ok now fp req doc commercial held s settled ahead h =
      (ground arith, ground arith, λ k row e. cc k)
  settle_trial-ok now fp req doc trial none s settled ahead h =
      (ground arith, ground arith, λ k row e. cc e)
  settle_trial-ok now fp req doc trial (some row) s settled ahead h =
      elim (Result-cases (trial_expiry c now row)) [
        | inl (t, e) ↦
            let (free, expiry, later) = trial_expiry-ok now row t e in
            (ground (arith, e), ground (arith, e), λ k row' e'. ground (arith, e))
        | inr (why, e) ↦ absurd (ground (arith, e))
      ]

  answer_heartbeat-ok :
      (cfg : ServerConfig) (now : Instant) (o : Result ServerError LicenseDoc)
      (r : HeartbeatResponse)
      → answer_heartbeat c cfg now o ≡ ok r
      → (doc : LicenseDoc) × (o ≡ ok doc)
        × (sign c cfg (reattest c now doc) ≡ ok r.license_file)
        × (r.expires_at ≡ doc.expires_at)
        × (r.issued_at ≡ now)
  unfolding answer_heartbeat
  answer_heartbeat-ok cfg now o r h =
      let (doc, e₁, h₁) = >>=-eq-ok o _ h in
      let (file, e₂, h₂) = >>=-eq-ok (sign c cfg (reattest c now doc)) _ h₁ in
      (doc, e₁, ground (arith, e₂), ground arith, ground arith)

  pub check_presented-ok :
      (cfg : ServerConfig) (now : Instant) (fp : Str) (req : HeartbeatRequest) (doc : LicenseDoc)
      → check_presented c cfg now fp req ≡ ok doc
      → (raw : Str) × (key : c.PrivateKey) × (c.text_of_value req.license_file ≡ some raw)
        × (c.private_of_pem cfg.signing_key_pem ≡ some key)
        × (verify_license c raw (c.public_of key) now ≡ ok doc)
        × (doc.fingerprint ≡ some fp)
  unfolding check_presented
  check_presented-ok cfg now fp req doc h =
      let (raw, e₁, h₁) = >>=-eq-ok (ok_or (c.text_of_value req.license_file) internal_error) _ h in
      let (key, e₂, h₂) =
        >>=-eq-ok (ok_or (c.private_of_pem cfg.signing_key_pem) internal_error) _ h₁ in
      let (d, e₃, h₃) =
        >>=-eq-ok (map_err (presented_error c) (verify_license c raw (c.public_of key) now)) _ h₂ in
      let verified =
        map_err-eq-ok (presented_error c) (verify_license c raw (c.public_of key) now) e₃ in
      let (u, e₄, h₄) = >>=-eq-ok (ensure (is_bound_to d.fingerprint fp) _) _ h₃ in
      let same : d ≡ doc = ground arith in
      (
        raw,
        key,
        ok_or-eq-ok _ _ e₁,
        ok_or-eq-ok _ _ e₂,
        verified ∙ ap ok same,
        ap (λ x. x.fingerprint) (sym same) ∙ bound_to-eq d.fingerprint fp (ensure-eq-ok _ _ e₄),
      )

  attest-granted :
      (cfg : ServerConfig) (now : Instant) (fp : Str) (req : HeartbeatRequest) (doc : LicenseDoc)
      (s : ServerState) (r : HeartbeatResponse)
      → now < doc.expires_at
      → (attest c cfg now fp req doc s).0 ≡ ok r
      → (find_revocation fp doc.licensee s.revocations ≡ none)
        × (sign c cfg (reattest c now (record doc { expires_at = r.expires_at }))
            ≡ ok r.license_file)
        × (r.issued_at ≡ now)
        × (now < r.expires_at)
        × (doc.kind ≡ trial
            → (row : TrialRecord) → find_trial fp s.trials ≡ some row
            → (row.revoked_reason ≡ none) × (parse_stored_ts c row.expires_at ≡ some r.expires_at))
  attest-granted cfg now fp req doc s r ahead h =
      elim (Option-cases (find_revocation fp doc.licensee s.revocations)) [
        | inr (v, e) ↦ absurd (unfold attest in ground (arith, e))
        | inl e ↦
            let held = find_trial fp s.trials in
            let settled = settle_trial c now fp req doc doc.kind held s in
            let h' : answer_heartbeat c cfg now settled.0 ≡ ok r =
              unfold attest in ground (arith, e) in
            let (d, ed, signed, ex, issued) = answer_heartbeat-ok cfg now settled.0 r h' in
            let (same, later, own) = settle_trial-ok now fp req doc doc.kind held s d ahead ed in
            let p : reattest c now (record doc { expires_at = r.expires_at }) ≡ reattest c now d =
              ground arith in
            (e, ap (sign c cfg) p ∙ signed, issued, rw ex later, λ k row er. rw ex (own k row er))
      ]

  heartbeat-attested :
      (cfg : ServerConfig) (a : Arrival) (req : HeartbeatRequest) (s : ServerState)
      (r : HeartbeatResponse)
      → (heartbeat c cfg a req s).0 ≡ ok r
      → (fp : Str) × (doc : LicenseDoc) × (normalize_fingerprint req.fingerprint ≡ ok fp)
        × (check_presented c cfg a.now fp req ≡ ok doc)
        × ((attest c cfg a.now fp req doc (rate_limit a.mono fp s).1).0 ≡ ok r)
  heartbeat-attested cfg a req s r h = elim (Result-cases (check_heartbeat cfg a req)) [
    | inr (why, e) ↦ absurd (unfold heartbeat in ground (arith, e))
    | inl (fp, e) ↦ elim (Result-cases (rate_limit a.mono fp s).0) [
      | inr (why, l) ↦ absurd (unfold heartbeat limited_heartbeat in ground (arith, e, l))
      | inl (u, l) ↦ elim (Result-cases (check_presented c cfg a.now fp req)) [
        | inr (why, p) ↦ absurd (unfold heartbeat limited_heartbeat in ground (arith, e, l, p))
        | inl (doc, p) ↦ (
          fp,
          doc,
          check_heartbeat-fp cfg a req fp e,
          p,
          unfold heartbeat limited_heartbeat in ground (arith, e, l, p),
        )
      ]
    ]
  ]

  -- A granted heartbeat was presented with a license that the vendor's key verifies, that has not
  -- expired and is bound to the install, and that no revocation names. The answer is that license,
  -- issued now and requiring heartbeats, with an expiry still ahead; for a trial whose row the
  -- server has, the row is not revoked and the expiry is the row's.
  pub heartbeat_granted :
      (cfg : ServerConfig) (a : Arrival) (req : HeartbeatRequest) (s : ServerState)
      (r : HeartbeatResponse)
      → (heartbeat c cfg a req s).0 ≡ ok r
      → (fp : Str) × (raw : Str) × (key : c.PrivateKey) × (doc : LicenseDoc)
        × (normalize_fingerprint req.fingerprint ≡ ok fp)
        × (c.text_of_value req.license_file ≡ some raw)
        × (c.private_of_pem cfg.signing_key_pem ≡ some key)
        × (verify_license c raw (c.public_of key) a.now ≡ ok doc)
        × (doc.fingerprint ≡ some fp)
        × (find_revocation fp doc.licensee s.revocations ≡ none)
        × (sign c cfg (reattest c a.now (record doc { expires_at = r.expires_at }))
            ≡ ok r.license_file)
        × (r.issued_at ≡ a.now)
        × (a.now < r.expires_at)
        × (doc.kind ≡ trial
            → (row : TrialRecord) → find_trial fp s.trials ≡ some row
            → (row.revoked_reason ≡ none) × (parse_stored_ts c row.expires_at ≡ some r.expires_at))
  heartbeat_granted cfg a req s r h =
      let (fp, doc, named, presented, attested) = heartbeat-attested cfg a req s r h in
      let (raw, key, e₁, e₂, verified, bound) = check_presented-ok cfg a.now fp req doc presented in
      let (file, payload, signature, s₁, s₂, s₃, s₄, ahead) =
        verify_license_sound c raw (c.public_of key) a.now doc verified in
      let (free, signed, issued, later, own) =
        attest-granted cfg a.now fp req doc (rate_limit a.mono fp s).1 r ahead attested in
      let (trials, revocations) = rate_limit-tables a.mono fp s in
      (
        fp,
        raw,
        key,
        doc,
        named,
        e₁,
        e₂,
        verified,
        bound,
        ap (find_revocation fp doc.licensee) (sym revocations) ∙ free,
        signed,
        issued,
        later,
        λ k row e. own k row (ap (find_trial fp) trials ∙ e),
      )
