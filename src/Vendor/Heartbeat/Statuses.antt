-- ===== src/Vendor/Heartbeat/Statuses.antt =====
-- The statuses that a heartbeat is refused with.
use mathlib.Core.Path.{subst}
use migration_platform.Prelude.{
  Bool, true, false, ◌≢◌, Option, none, some, Result, ok, err, map_err, ok_or, ensure, ◌>>=◌, arith,
  Result-cases, Option-cases, inl, inr,
}
use migration_platform.Text.{Str}
use migration_platform.Time.{Instant}
use migration_platform.License.Types.{LicenseDoc, LicenseKind, trial, commercial}
use migration_platform.License.Signing.{Codec, SigningError, verify_license, sign_license}
use migration_platform.Vendor.Types.{
  ServerConfig, TrialRecord, ServerState, ServerError, Arrival, HeartbeatRequest,
}
use migration_platform.Vendor.Guards.{authorize, normalize_fingerprint, rate_limit}
use migration_platform.Vendor.Store.{find_trial, find_revocation}
use migration_platform.Vendor.Trial.{sign}
use migration_platform.Vendor.Heartbeat.{
  check_heartbeat, check_presented, presented_error, revoked_error, trial_expiry, settle_trial,
  answer_heartbeat, attest, limited_heartbeat, heartbeat,
}

-- An error does not have the status of success.
abbrev pub NotSuccess : {A : Type 0} → Result ServerError A → Type 0
NotSuccess (ok a) = Unit
NotSuccess (err e) = e.status ≢ 200

bind-NotSuccess :
    {A B : Type 0} (m : Result ServerError A) (f : A → Result ServerError B)
    → NotSuccess m
    → ((a : A) → NotSuccess (f a))
    → NotSuccess (m >>= f)
bind-NotSuccess (ok a) f h k = k a
bind-NotSuccess (err e) f h k = h

ok_or-NotSuccess :
    {A : Type 0} (o : Option A) (e : ServerError) → e.status ≢ 200 → NotSuccess (ok_or o e)
ok_or-NotSuccess none e h = h
ok_or-NotSuccess (some a) e h = tt

map_err-NotSuccess :
    {E A : Type 0} (f : E → ServerError) (r : Result E A)
    → ((e : E) → (f e).status ≢ 200)
    → NotSuccess (map_err f r)
map_err-NotSuccess f (ok a) h = tt
map_err-NotSuccess f (err e) h = h e

ensure-NotSuccess : (b : Bool) (e : ServerError) → e.status ≢ 200 → NotSuccess (ensure b e)
ensure-NotSuccess true e h = tt
ensure-NotSuccess false e h = h

authorize-NotSuccess :
    (cfg : ServerConfig) (header : Option Str) → NotSuccess (authorize cfg header)
unfolding authorize
authorize-NotSuccess cfg header = ground arith

check_heartbeat-NotSuccess :
    (cfg : ServerConfig) (a : Arrival) (req : HeartbeatRequest)
    → NotSuccess (check_heartbeat cfg a req)
unfolding check_heartbeat
check_heartbeat-NotSuccess cfg a req =
    bind-NotSuccess (authorize cfg a.authorization) _ (authorize-NotSuccess cfg a.authorization)
      λ u. map_err-NotSuccess _ (normalize_fingerprint req.fingerprint) λ e. omega arith

rate_limit-NotSuccess :
    (mono : Instant) (fp : Str) (s : ServerState) → NotSuccess (rate_limit mono fp s).0
unfolding rate_limit
rate_limit-NotSuccess mono fp s = ground arith

module _ (c : Codec) where
  presented_error-NotSuccess : (e : SigningError) → (presented_error c e).status ≢ 200
  unfolding presented_error
  presented_error-NotSuccess e = ground arith

  check_presented-NotSuccess :
      (cfg : ServerConfig) (now : Instant) (fp : Str) (req : HeartbeatRequest)
      → NotSuccess (check_presented c cfg now fp req)
  unfolding check_presented
  check_presented-NotSuccess cfg now fp req =
      bind-NotSuccess _ _ (ok_or-NotSuccess (c.text_of_value req.license_file) _ (omega arith))
        λ raw.
          bind-NotSuccess _ _
            (ok_or-NotSuccess (c.private_of_pem cfg.signing_key_pem) _ (omega arith))
            λ key.
              bind-NotSuccess _ _
                (map_err-NotSuccess (presented_error c) (verify_license c raw (c.public_of key) now)
                  presented_error-NotSuccess)
                λ doc. ground arith

  settle_trial-NotSuccess :
      (now : Instant) (fp : Str) (req : HeartbeatRequest) (doc : LicenseDoc) (kind : LicenseKind)
      (row : Option TrialRecord) (s : ServerState)
      → NotSuccess (settle_trial c now fp req doc kind row s).0
  unfolding settle_trial trial_expiry
  settle_trial-NotSuccess now fp req doc commercial row s = tt
  settle_trial-NotSuccess now fp req doc trial none s = tt
  settle_trial-NotSuccess now fp req doc trial (some row) s = ground arith

  answer_heartbeat-NotSuccess :
      (cfg : ServerConfig) (now : Instant) (r : Result ServerError LicenseDoc)
      → NotSuccess r
      → NotSuccess (answer_heartbeat c cfg now r)
  unfolding answer_heartbeat sign
  answer_heartbeat-NotSuccess cfg now r h = bind-NotSuccess r _ h λ doc.
      bind-NotSuccess _ _
        (bind-NotSuccess _ _
          (map_err-NotSuccess _ (sign_license c _ cfg.signing_key_pem) λ e. omega arith)
          λ signed. ok_or-NotSuccess (c.value_of_text signed) _ (omega arith))
        λ file. tt

  attest-NotSuccess :
      (cfg : ServerConfig) (now : Instant) (fp : Str) (req : HeartbeatRequest) (doc : LicenseDoc)
      (s : ServerState)
      → NotSuccess (attest c cfg now fp req doc s).0
  unfolding attest revoked_error
  attest-NotSuccess cfg now fp req doc s =
      let settled = settle_trial c now fp req doc doc.kind (find_trial fp s.trials) s in
      let h = settle_trial-NotSuccess now fp req doc doc.kind (find_trial fp s.trials) s in
      elim (Option-cases (find_revocation fp doc.licensee s.revocations)) [
        | inl e ↦ rw (e, attest) (answer_heartbeat-NotSuccess cfg now settled.0 h)
        | inr (v, e) ↦ rw (e, attest) (omega arith)
      ]

  limited_heartbeat-NotSuccess :
      (cfg : ServerConfig) (a : Arrival) (req : HeartbeatRequest) (fp : Str) (s : ServerState)
      → NotSuccess (limited_heartbeat c cfg a req fp s).0
  unfolding limited_heartbeat
  limited_heartbeat-NotSuccess cfg a req fp s =
      let s₁ = (rate_limit a.mono fp s).1 in
      elim (Result-cases (rate_limit a.mono fp s).0) [
        | inr (e, l) ↦
            rw (l, limited_heartbeat) (subst NotSuccess l (rate_limit-NotSuccess a.mono fp s))
        | inl (u, l) ↦ elim (Result-cases (check_presented c cfg a.now fp req)) [
          | inr (e, p) ↦
              rw (l, limited_heartbeat, p)
                (subst NotSuccess p (check_presented-NotSuccess cfg a.now fp req))
          | inl (doc, p) ↦ rw (l, limited_heartbeat, p) (attest-NotSuccess cfg a.now fp req doc s₁)
        ]
      ]

  -- A heartbeat that is refused is refused with another status than that of success.
  pub heartbeat-NotSuccess :
      (cfg : ServerConfig) (a : Arrival) (req : HeartbeatRequest) (s : ServerState)
      → NotSuccess (heartbeat c cfg a req s).0
  unfolding heartbeat
  heartbeat-NotSuccess cfg a req s = elim (Result-cases (check_heartbeat cfg a req)) [
    | inr (e, h) ↦ rw (h, heartbeat) (subst NotSuccess h (check_heartbeat-NotSuccess cfg a req))
    | inl (fp, h) ↦ rw (h, heartbeat) (limited_heartbeat-NotSuccess cfg a req fp s)
  ]
