-- ===== src/Vendor/Trial/Terms.antt =====
-- The terms on which a trial start is granted.
use migration_platform.Prelude.{
  ◌+◌, ◌<◌, ◌≡◌, sym, ap, ◌∙◌, Bool, true, false, none, some, ok, arith, Result-cases, Option-cases,
  inl, inr, >>=-eq-ok, map_err, map_err-eq-ok,
}
use migration_platform.Text.{Str, lit, str_eq_refl}
use migration_platform.Time.{Instant, days}
use migration_platform.License.Signing.{Codec}
use migration_platform.License.Signing.Laws.{CodecLaws}
use migration_platform.Vendor.Types.{
  ServerConfig, TrialRecord, ServerState, server_error, Arrival, TrialStart, TrialResponse,
}
use migration_platform.Vendor.Guards.{rate_limit, normalize_fingerprint, authorize}
use migration_platform.Vendor.Guards.Limiter.{rate_limit-tables}
use migration_platform.Vendor.Store.{find_trial, parse_stored_ts}
use migration_platform.Vendor.Trial.Laws.{trial_start-Keeps}
use migration_platform.Vendor.Trial.{
  check_trial_start, required_email, reuse_trial, new_trial, trial_doc, sign, answer_trial,
  grant_trial, limited_trial, trial_start,
}

check_trial_start-fp :
    (cfg : ServerConfig) (a : Arrival) (req : TrialStart) (fp email : Str)
    → check_trial_start cfg a req ≡ ok (fp, email)
    → normalize_fingerprint req.fingerprint ≡ ok fp
unfolding check_trial_start
check_trial_start-fp cfg a req fp email h =
    let (u, auth, h₁) = >>=-eq-ok (authorize cfg a.authorization) _ h in
    let (fp', named, h₂) =
      >>=-eq-ok
        (map_err (server_error 400 (lit "bad_request")) (normalize_fingerprint req.fingerprint)) _
        h₁ in
    let (email', asked, h₃) = >>=-eq-ok (required_email req.email) _ h₂ in
    ground (arith, map_err-eq-ok _ (normalize_fingerprint req.fingerprint) named)

module _ (c : Codec) where
  answer_trial-terms :
      (cfg : ServerConfig) (now : Instant) (fp licensee : Str) (reused : Bool)
      (expires_at : Instant) (r : TrialResponse)
      → answer_trial c cfg now fp reused (expires_at, licensee) ≡ ok r
      → (r.expires_at ≡ expires_at) × (r.reused ≡ reused)
  unfolding answer_trial
  answer_trial-terms cfg now fp licensee reused expires_at r h =
      let (file, signed, h₁) =
        >>=-eq-ok (sign c cfg (trial_doc c now fp licensee expires_at)) _ h in
      ground arith

  reuse_trial-terms :
      (now : Instant) (email : Str) (row : TrialRecord) (expires_at : Instant) (licensee : Str)
      → reuse_trial c now email row ≡ ok (expires_at, licensee)
      → (parse_stored_ts c row.expires_at ≡ some expires_at)
        × (now < expires_at)
        × (row.revoked_reason ≡ none)
  unfolding reuse_trial
  reuse_trial-terms now email row expires_at licensee h = ground arith

  -- A row that is found: the trial is reused on its terms.
  grant_trial-reused :
      (cfg : ServerConfig) (now : Instant) (fp email : Str) (req : TrialStart) (row : TrialRecord)
      (s : ServerState) (r : TrialResponse)
      → (grant_trial c cfg now fp email req (some row) s).0 ≡ ok r
      → (parse_stored_ts c row.expires_at ≡ some r.expires_at)
        × (r.reused ≡ true)
        × (now < r.expires_at)
        × (row.revoked_reason ≡ none)
  unfolding grant_trial
  grant_trial-reused cfg now fp email req row s r h =
      elim (Result-cases (reuse_trial c now email row)) [
        | inl ((expires_at, licensee), e) ↦
            let answered : answer_trial c cfg now fp true (expires_at, licensee) ≡ ok r =
              ground arith in
            ground (
              arith,
              reuse_trial-terms now email row expires_at licensee e,
              answer_trial-terms cfg now fp licensee true expires_at r answered,
            )
        | inr (why, e) ↦ ground arith
      ]

  -- No row: one is written, with an expiry that the answer gives.
  grant_trial-new :
      CodecLaws c
      → (cfg : ServerConfig) (now : Instant) (fp email : Str) (req : TrialStart) (s : ServerState)
        (r : TrialResponse)
      → (grant_trial c cfg now fp email req none s).0 ≡ ok r
      → (row : TrialRecord) × (find_trial fp (grant_trial c cfg now fp email req none s).1.trials
          ≡ some row)
        × (parse_stored_ts c row.expires_at ≡ some r.expires_at)
        × (r.expires_at ≡ now + days cfg.trial_days)
        × (r.reused ≡ false)
  unfolding grant_trial find_trial new_trial parse_stored_ts
  grant_trial-new laws cfg now fp email req s r h = (
    new_trial c cfg now fp email req,
    rw (str_eq_refl fp),
    ground (
      arith,
      laws.instant_reads (now + days cfg.trial_days),
      answer_trial-terms cfg now fp email false (now + days cfg.trial_days) r h,
    ),
    (answer_trial-terms cfg now fp email false (now + days cfg.trial_days) r h).0,
    (answer_trial-terms cfg now fp email false (now + days cfg.trial_days) r h).1,
  )

  -- A successful trial start passed the checks and the limiter, and was granted.
  trial_start-granted :
      (cfg : ServerConfig) (a : Arrival) (req : TrialStart) (s : ServerState) (r : TrialResponse)
      → (trial_start c cfg a req s).0 ≡ ok r
      → (fp : Str) × (email : Str) × (normalize_fingerprint req.fingerprint ≡ ok fp)
        × (let s₁ = (rate_limit a.mono fp s).1 in
            trial_start c cfg a req s
            ≡ grant_trial c cfg a.now fp email req (find_trial fp s.trials) s₁)
  trial_start-granted cfg a req s r h = elim (Result-cases (check_trial_start cfg a req)) [
    | inr (why, e) ↦ absurd (unfold trial_start in ground (arith, e))
    | inl ((fp, email), e) ↦ elim (Result-cases (rate_limit a.mono fp s).0) [
      | inr (why, l) ↦ absurd (unfold trial_start limited_trial in ground (arith, e, l))
      | inl (u, l) ↦ (
        fp,
        email,
        check_trial_start-fp cfg a req fp email e,
        unfold trial_start limited_trial in
            rw (e, l, trial_start, limited_trial)
              (ap
                (λ t.
                  grant_trial c cfg a.now fp email req (find_trial fp t) (rate_limit a.mono fp s).1)
                (rate_limit-tables a.mono fp s).0),
      )
    ]
  ]

  -- If the install has a row, a successful trial start reuses it: the expiry is the row's and still
  -- ahead, and the row is not revoked.
  pub trial_start-reused :
      (cfg : ServerConfig) (a : Arrival) (req : TrialStart) (s : ServerState) (r : TrialResponse)
      (fp : Str) (row : TrialRecord)
      → normalize_fingerprint req.fingerprint ≡ ok fp
      → find_trial fp s.trials ≡ some row
      → (trial_start c cfg a req s).0 ≡ ok r
      → (parse_stored_ts c row.expires_at ≡ some r.expires_at)
        × (r.reused ≡ true)
        × (a.now < r.expires_at)
        × (row.revoked_reason ≡ none)
  trial_start-reused cfg a req s r fp row named found h =
      let (fp', email, named', e) = trial_start-granted cfg a req s r h in
      let same : fp' ≡ fp = ground arith in
      grant_trial-reused cfg a.now fp' email req row (rate_limit a.mono fp' s).1 r
        (cc (e, same, found, h))

  -- After a successful trial start the install has a row, and its expiry is the one in the answer.
  pub trial_start-row :
      CodecLaws c
      → (cfg : ServerConfig) (a : Arrival) (req : TrialStart) (s : ServerState) (r : TrialResponse)
        (fp : Str)
      → normalize_fingerprint req.fingerprint ≡ ok fp
      → (trial_start c cfg a req s).0 ≡ ok r
      → (row : TrialRecord) × (find_trial fp (trial_start c cfg a req s).1.trials ≡ some row)
        × (parse_stored_ts c row.expires_at ≡ some r.expires_at)
  trial_start-row laws cfg a req s r fp named h = elim (Option-cases (find_trial fp s.trials)) [
    | inr (row, found) ↦
        let (row', found', continues) = trial_start-Keeps c cfg a req s fp row found in
        let (expiry, reused, ahead, free) = trial_start-reused cfg a req s r fp row named found h in
        (row', found', ap (parse_stored_ts c) continues.same_expiry ∙ expiry)
    | inl absent ↦
        let (fp', email, named', e) = trial_start-granted cfg a req s r h in
        let same : fp' ≡ fp = ground arith in
        let s₁ = (rate_limit a.mono fp' s).1 in
        let e' : trial_start c cfg a req s ≡ grant_trial c cfg a.now fp' email req none s₁ =
          cc (e, same, absent) in
        let (row, found, expiry, until, reused) =
          grant_trial-new laws cfg a.now fp' email req s₁ r (ap (λ p. p.0) (sym e') ∙ h) in
        (row, cc (e', same, found), expiry)
  ]
