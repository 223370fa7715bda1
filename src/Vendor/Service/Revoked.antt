-- ===== src/Vendor/Service/Revoked.antt =====
-- How long a revocation lasts while the service goes on.
use mathlib.Core.Path.{subst}
use migration_platform.Prelude.{
  ◌≡◌, ◌≢◌, ◌∙◌, refl, sym, ap, List, [], ◌∷◌, Option, none, some, ok, arith, Result-cases, inl,
  inr, All,
}
use migration_platform.Text.{Str, str_eq_iff}
use migration_platform.Time.{Instant}
use migration_platform.License.Types.{LicenseDoc, LicenseKind, trial, commercial}
use migration_platform.License.Signing.{Codec}
use migration_platform.Vendor.Types.{
  ServerConfig, ServerState, TrialRecord, Revocation, Arrival, TrialStart, HeartbeatRequest,
}
use migration_platform.Vendor.Guards.{normalize_fingerprint, rate_limit}
use migration_platform.Vendor.Guards.Limiter.{rate_limit-tables}
use migration_platform.Vendor.Store.{
  find_trial, find_revocation, upsert_revocation, delete_revocations, revoke, unrevoke,
}
use migration_platform.Vendor.Revocation.{IsRevoked}
use migration_platform.Vendor.Trial.{check_trial_start, grant_trial, limited_trial, trial_start}
use migration_platform.Vendor.Heartbeat.{
  check_heartbeat, check_presented, settle_trial, attest, limited_heartbeat, heartbeat,
}
use migration_platform.Vendor.Service.{Event, start, beat, withdraw, restore, step, serve}

-- An event that does not restore the install.
abbrev pub Leaves : Str → Event → Type 0
Leaves fp (start a req) = Unit
Leaves fp (beat a req) = Unit
Leaves fp (withdraw now raw licensee reason) = Unit
Leaves fp (restore raw licensee) = normalize_fingerprint raw ≢ ok fp

module _ (fp licensee : Str) where
  upsert-keeps :
      (v : Revocation) (rs : List Revocation)
      → IsRevoked fp licensee rs
      → IsRevoked fp licensee (upsert_revocation v rs)
  unfolding upsert_revocation find_revocation
  upsert-keeps v [] h = cc
  upsert-keeps v (r ∷ rs) h = ground (arith, upsert-keeps v rs)

  delete-keeps :
      (other : Str) (named : Option Str) (rs : List Revocation)
      → other ≢ fp
      → IsRevoked fp licensee rs
      → IsRevoked fp licensee (delete_revocations other named rs).0
  unfolding delete_revocations find_revocation
  delete-keeps other named [] ne h = cc
  delete-keeps other named (r ∷ rs) ne h = ground (
    arith,
    str_eq_iff r.fingerprint other,
    str_eq_iff r.fingerprint fp,
    delete-keeps other named rs ne,
  )

  revoke-keeps :
      (c : Codec) (now : Instant) (raw l reason : Str) (s : ServerState)
      → IsRevoked fp licensee s.revocations
      → IsRevoked fp licensee (revoke c now raw l reason s).1.revocations
  unfolding revoke
  revoke-keeps c now raw l reason s h = elim (Result-cases (normalize_fingerprint raw)) [
    | inr (why, e) ↦ rw (e, revoke) h
    | inl (k, e) ↦ rw (e, revoke) (upsert-keeps _ s.revocations h)
  ]

  unrevoke-keeps :
      (raw : Str) (named : Option Str) (s : ServerState)
      → normalize_fingerprint raw ≢ ok fp
      → IsRevoked fp licensee s.revocations
      → IsRevoked fp licensee (unrevoke raw named s).1.revocations
  unfolding unrevoke
  unrevoke-keeps raw named s other h = elim (Result-cases (normalize_fingerprint raw)) [
    | inr (why, e) ↦ rw (e, unrevoke) h
    | inl (k, e) ↦
        rw (e, unrevoke) (delete-keeps k named s.revocations (λ q. other (e ∙ ap ok q)) h)
  ]

module _ (c : Codec) (cfg : ServerConfig) where
  grant_trial-revocations :
      (now : Instant) (fp email : Str) (req : TrialStart) (held : Option TrialRecord)
      (s : ServerState)
      → (grant_trial c cfg now fp email req held s).1.revocations ≡ s.revocations
  unfolding grant_trial
  grant_trial-revocations now fp email req none s = refl
  grant_trial-revocations now fp email req (some row) s = ground arith

  trial_start-revocations :
      (a : Arrival) (req : TrialStart) (s : ServerState)
      → (trial_start c cfg a req s).1.revocations ≡ s.revocations
  unfolding trial_start limited_trial
  trial_start-revocations a req s = elim (Result-cases (check_trial_start cfg a req)) [
    | inr (why, e) ↦ rw (e, trial_start)
    | inl ((fp, email), e) ↦
        let s₁ = (rate_limit a.mono fp s).1 in
        let same = (rate_limit-tables a.mono fp s).1 in
        ground
          (arith, e, same, grant_trial-revocations a.now fp email req (find_trial fp s₁.trials) s₁)
  ]

  settle_trial-revocations :
      (now : Instant) (fp : Str) (req : HeartbeatRequest) (doc : LicenseDoc) (kind : LicenseKind)
      (row : Option TrialRecord) (s : ServerState)
      → (settle_trial c now fp req doc kind row s).1.revocations ≡ s.revocations
  unfolding settle_trial
  settle_trial-revocations now fp req doc commercial row s = refl
  settle_trial-revocations now fp req doc trial none s = refl
  settle_trial-revocations now fp req doc trial (some row) s = ground arith

  attest-revocations :
      (now : Instant) (fp : Str) (req : HeartbeatRequest) (doc : LicenseDoc) (s : ServerState)
      → (attest c cfg now fp req doc s).1.revocations ≡ s.revocations
  unfolding attest
  attest-revocations now fp req doc s =
      ground (arith, settle_trial-revocations now fp req doc doc.kind (find_trial fp s.trials) s)

  heartbeat-revocations :
      (a : Arrival) (req : HeartbeatRequest) (s : ServerState)
      → (heartbeat c cfg a req s).1.revocations ≡ s.revocations
  unfolding heartbeat limited_heartbeat
  heartbeat-revocations a req s = elim (Result-cases (check_heartbeat cfg a req)) [
    | inr (why, e) ↦ rw (e, heartbeat)
    | inl (fp, e) ↦
        let s₁ = (rate_limit a.mono fp s).1 in
        let same = (rate_limit-tables a.mono fp s).1 in
        elim (Result-cases (check_presented c cfg a.now fp req)) [
          | inr (why, p) ↦ ground (arith, e, p, same)
          | inl (doc, p) ↦ ground (arith, e, p, same, attest-revocations a.now fp req doc s₁)
        ]
  ]

  step-IsRevoked :
      (fp licensee : Str) (e : Event) (s : ServerState)
      → Leaves fp e
      → IsRevoked fp licensee s.revocations
      → IsRevoked fp licensee (step c cfg e s).revocations
  unfolding step
  step-IsRevoked fp licensee (start a req) s l h =
      subst (IsRevoked fp licensee) (sym (trial_start-revocations a req s)) h
  step-IsRevoked fp licensee (beat a req) s l h =
      subst (IsRevoked fp licensee) (sym (heartbeat-revocations a req s)) h
  step-IsRevoked fp licensee (withdraw now raw l' reason) s l h =
      revoke-keeps fp licensee c now raw l' reason s h
  step-IsRevoked fp licensee (restore raw named) s l h = unrevoke-keeps fp licensee raw named s l h

  -- A revocation lasts through any events of the service that do not restore the install.
  pub serve-IsRevoked :
      (fp licensee : Str) (es : List Event) (s : ServerState)
      → All (Leaves fp) es
      → IsRevoked fp licensee s.revocations
      → IsRevoked fp licensee (serve c cfg es s).revocations
  unfolding serve
  serve-IsRevoked fp licensee [] s l h = h
  serve-IsRevoked fp licensee (e ∷ es) s l h =
      serve-IsRevoked fp licensee es (step c cfg e s) l.1 (step-IsRevoked fp licensee e s l.0 h)
