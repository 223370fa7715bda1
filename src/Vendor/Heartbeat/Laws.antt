-- ===== src/Vendor/Heartbeat/Laws.antt =====
-- What a heartbeat leaves in the table of trials.
use mathlib.Core.Path.{subst}
use migration_platform.Prelude.{
  ◌≡◌, ◌⊎◌, refl, sym, Option, none, some, arith, Result-cases, Option-cases, inl, inr,
}
use migration_platform.Text.{Str}
use migration_platform.Time.{Instant}
use migration_platform.License.Types.{LicenseDoc, LicenseKind, trial, commercial}
use migration_platform.License.Signing.{Codec}
use migration_platform.Vendor.Types.{
  ServerConfig, TrialRecord, ServerState, Arrival, HeartbeatRequest,
}
use migration_platform.Vendor.Guards.{rate_limit}
use migration_platform.Vendor.Guards.Limiter.{rate_limit-tables}
use migration_platform.Vendor.Store.{find_trial, update_trial, find_revocation}
use migration_platform.Vendor.Store.Laws.{Continues, Keeps, Keeps-refl, Keeps-update}
use migration_platform.Vendor.Heartbeat.{
  check_heartbeat, check_presented, note_heartbeat, settle_trial, attest, limited_heartbeat,
  heartbeat,
}

module _ (c : Codec) where
  settled-trials :
      (now : Instant) (fp : Str) (req : HeartbeatRequest) (doc : LicenseDoc) (kind : LicenseKind)
      (row : Option TrialRecord) (s : ServerState)
      → let after = (settle_trial c now fp req doc kind row s).1.trials in
        (after ≡ s.trials) ⊎ (after ≡ update_trial fp (note_heartbeat c now req) s.trials)
  unfolding settle_trial
  settled-trials now fp req doc commercial row s = inl refl
  settled-trials now fp req doc trial none s = inl refl
  settled-trials now fp req doc trial (some row) s = ground arith

  note_heartbeat-Continues :
      (now : Instant) (req : HeartbeatRequest) (r : TrialRecord)
      → Continues r (note_heartbeat c now req r)
  unfolding note_heartbeat
  note_heartbeat-Continues now req r = ground arith

  settle_trial-Keeps :
      (now : Instant) (fp : Str) (req : HeartbeatRequest) (doc : LicenseDoc) (kind : LicenseKind)
      (row : Option TrialRecord) (s : ServerState)
      → Keeps s.trials (settle_trial c now fp req doc kind row s).1.trials
  settle_trial-Keeps now fp req doc kind row s = elim (settled-trials now fp req doc kind row s) [
    | inl same ↦ subst (Keeps s.trials) (sym same) (Keeps-refl s.trials)
    | inr written ↦
        subst (Keeps s.trials) (sym written)
          (Keeps-update fp (note_heartbeat c now req) (note_heartbeat-Continues now req) s.trials)
  ]

  attest-Keeps :
      (cfg : ServerConfig) (now : Instant) (fp : Str) (req : HeartbeatRequest) (doc : LicenseDoc)
      (s : ServerState)
      → Keeps s.trials (attest c cfg now fp req doc s).1.trials
  unfolding attest
  attest-Keeps cfg now fp req doc s =
      elim (Option-cases (find_revocation fp doc.licensee s.revocations)) [
        | inl e ↦
            rw (e, attest) (settle_trial-Keeps now fp req doc doc.kind (find_trial fp s.trials) s)
        | inr (r, e) ↦ rw (e, attest) (Keeps-refl s.trials)
      ]

  limited_heartbeat-Keeps :
      (cfg : ServerConfig) (a : Arrival) (req : HeartbeatRequest) (fp : Str) (s : ServerState)
      → Keeps s.trials (limited_heartbeat c cfg a req fp s).1.trials
  unfolding limited_heartbeat
  limited_heartbeat-Keeps cfg a req fp s =
      let s₁ = (rate_limit a.mono fp s).1 in
      let same = (rate_limit-tables a.mono fp s).0 in
      let unchanged : Keeps s.trials s₁.trials =
        subst (Keeps s.trials) (sym same) (Keeps-refl s.trials) in
      elim (Result-cases (rate_limit a.mono fp s).0) [
        | inl (u, e) ↦ elim (Result-cases (check_presented c cfg a.now fp req)) [
          | inl (doc, p) ↦
              rw (e, p, limited_heartbeat)
                (subst (λ t. Keeps t (attest c cfg a.now fp req doc s₁).1.trials) same
                  (attest-Keeps cfg a.now fp req doc s₁))
          | inr (why, p) ↦ rw (e, p, limited_heartbeat) unchanged
        ]
        | inr (why, e) ↦ rw (e, limited_heartbeat) unchanged
      ]

  pub heartbeat-Keeps :
      (cfg : ServerConfig) (a : Arrival) (req : HeartbeatRequest) (s : ServerState)
      → Keeps s.trials (heartbeat c cfg a req s).1.trials
  unfolding heartbeat
  heartbeat-Keeps cfg a req s = elim (Result-cases (check_heartbeat cfg a req)) [
    | inl (fp, e) ↦ rw (e, heartbeat) (limited_heartbeat-Keeps cfg a req fp s)
    | inr (why, e) ↦ rw (e, heartbeat) (Keeps-refl s.trials)
  ]
