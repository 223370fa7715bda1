-- ===== src/Vendor/Trial/Laws.antt =====
-- What a trial start gives, and what it leaves in the table.
use mathlib.Core.Path.{subst}
use migration_platform.Prelude.{
  ◌⊎◌, ◌≡◌, refl, sym, Option, none, some, arith, Result-cases, inl, inr,
}
use migration_platform.Text.{Str}
use migration_platform.Time.{Instant}
use migration_platform.License.Signing.{Codec}
use migration_platform.Vendor.Types.{ServerConfig, TrialRecord, ServerState, Arrival, TrialStart}
use migration_platform.Vendor.Guards.{rate_limit}
use migration_platform.Vendor.Guards.Limiter.{rate_limit-tables}
use migration_platform.Vendor.Store.{find_trial, update_trial}
use migration_platform.Vendor.Store.Laws.{Keeps, Keeps-refl, Keeps-update, Keeps-insert}
use migration_platform.Vendor.Trial.{
  check_trial_start, record_email, new_trial, grant_trial, limited_trial, trial_start,
}

module _ (c : Codec) where
  reused-trials :
      (cfg : ServerConfig) (now : Instant) (fp email : Str) (req : TrialStart) (row : TrialRecord)
      (s : ServerState)
      → let after = (grant_trial c cfg now fp email req (some row) s).1.trials in
        (after ≡ s.trials) ⊎ (after ≡ update_trial fp (record_email c email) s.trials)
  unfolding grant_trial
  reused-trials cfg now fp email req row s = ground arith

  grant_trial-Keeps :
      (cfg : ServerConfig) (now : Instant) (fp email : Str) (req : TrialStart)
      (held : Option TrialRecord) (s : ServerState)
      → find_trial fp s.trials ≡ held
      → Keeps s.trials (grant_trial c cfg now fp email req held s).1.trials
  grant_trial-Keeps cfg now fp email req none s e =
      unfold grant_trial new_trial in Keeps-insert (new_trial c cfg now fp email req) s.trials e
  grant_trial-Keeps cfg now fp email req (some row) s e =
      elim (reused-trials cfg now fp email req row s) [
        | inl same ↦ subst (Keeps s.trials) (sym same) (Keeps-refl s.trials)
        | inr written ↦
            subst (Keeps s.trials) (sym written)
              (Keeps-update fp (record_email c email) (λ r. ground arith) s.trials)
      ]

  limited_trial-Keeps :
      (cfg : ServerConfig) (a : Arrival) (req : TrialStart) (fp email : Str) (s : ServerState)
      → Keeps s.trials (limited_trial c cfg a req (fp, email) s).1.trials
  unfolding limited_trial
  limited_trial-Keeps cfg a req fp email s =
      let s₁ = (rate_limit a.mono fp s).1 in
      let same = (rate_limit-tables a.mono fp s).0 in
      elim (Result-cases (rate_limit a.mono fp s).0) [
        | inl (u, e) ↦
            rw (e, limited_trial)
              (subst
                (λ t.
                  Keeps t
                    (grant_trial c cfg a.now fp email req (find_trial fp s₁.trials) s₁).1.trials)
                same (grant_trial-Keeps cfg a.now fp email req (find_trial fp s₁.trials) s₁ refl))
        | inr (why, e) ↦
            rw (e, limited_trial) (subst (Keeps s.trials) (sym same) (Keeps-refl s.trials))
      ]

  pub trial_start-Keeps :
      (cfg : ServerConfig) (a : Arrival) (req : TrialStart) (s : ServerState)
      → Keeps s.trials (trial_start c cfg a req s).1.trials
  unfolding trial_start
  trial_start-Keeps cfg a req s = elim (Result-cases (check_trial_start cfg a req)) [
    | inl ((fp, email), e) ↦ rw (e, trial_start) (limited_trial-Keeps cfg a req fp email s)
    | inr (why, e) ↦ rw (e, trial_start) (Keeps-refl s.trials)
  ]
