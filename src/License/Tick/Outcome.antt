-- ===== src/License/Tick/Outcome.antt =====
-- What one exchange with the license server does to the license, and when the next one may follow.
use migration_platform.Prelude.{
  ◌+◌, ◌<◌, ◌≡◌, ◌≢◌, refl, Bool, false, none, some, ok, is_ok, arith, Option-cases, inl, inr,
  Result-cases,
}
use migration_platform.Text.{Str}
use migration_platform.Time.{Instant, Duration}
use migration_platform.License.Types.{LicenseDoc, LicenseState}
use migration_platform.License.Signing.{Codec}
use migration_platform.License.Validity.{validity, is_licensed, heartbeat_retry}
use migration_platform.License.Heartbeat.{heartbeat_due}
use migration_platform.License.Client.{
  World, LicenseServer, HeartbeatOutcome, refreshed, denied, unavailable, heartbeat_once, from_env,
  load_public_key,
}
use migration_platform.License.Tick.{record_outcome, attempt, attempt_if_held}

-- Whether the license is usable at an instant after an outcome, from whether it was before.
abbrev pub verdict : HeartbeatOutcome → Bool → Str → Instant → Bool
verdict (refreshed loaded) before fp t = is_ok (validity loaded.doc fp t)
verdict (denied status reason) before fp t = false
verdict (unavailable e) before fp t = before

record_outcome-is_licensed :
    (w : World) (o : HeartbeatOutcome) (s : LicenseState) (fp : Str) (t : Instant)
    → is_licensed (record_outcome w o s) fp t ≡ verdict o (is_licensed s fp t) fp t
unfolding record_outcome is_licensed
record_outcome-is_licensed w (refreshed loaded) s fp t = ground arith
record_outcome-is_licensed w (denied status reason) s fp t = ground arith
record_outcome-is_licensed w (unavailable e) s fp t = ground arith

record_outcome-attempt :
    (w : World) (o : HeartbeatOutcome) (s : LicenseState)
    → (record_outcome w o s).last_heartbeat_attempt ≡ s.last_heartbeat_attempt
unfolding record_outcome
record_outcome-attempt w (refreshed loaded) s = refl
record_outcome-attempt w (denied status reason) s = refl
record_outcome-attempt w (unavailable e) s = refl

module _ (c : Codec) where
  -- With a server and a key at hand, the exchange decides: after a refreshed license the process is
  -- licensed at an instant exactly when the new document is usable then, after a refusal at no
  -- instant, and after any failure exactly when it was before.
  pub attempt-verdict :
      (w : World) (server : LicenseServer) (key : c.PublicKey) (fp raw : Str) (s : LicenseState)
      → from_env w ≡ some server
      → load_public_key c w ≡ ok key
      → (t : Instant)
      → is_licensed (attempt c w fp raw s) fp t
        ≡ verdict (heartbeat_once c w server fp raw key) (is_licensed s fp t) fp t
  unfolding attempt
  attempt-verdict w server key fp raw s es ek t =
      rw (es, ek, attempt)
        (record_outcome-is_licensed w (heartbeat_once c w server fp raw key) s fp t)

  pub attempt-attempt :
      (w : World) (fp raw : Str) (s : LicenseState)
      → (attempt c w fp raw s).last_heartbeat_attempt ≡ s.last_heartbeat_attempt
  unfolding attempt
  attempt-attempt w fp raw s = elim (Option-cases (from_env w)) [
    | inl e ↦ rw (e, attempt)
    | inr (server, e) ↦ elim (Result-cases (load_public_key c w)) [
      | inl (key, k) ↦
          rw (e, k, attempt) (record_outcome-attempt w (heartbeat_once c w server fp raw key) s)
      | inr (why, k) ↦ rw (e, k, attempt)
    ]
  ]

  due_after_failure :
      (interval : Duration) (s : LicenseState) (doc : LicenseDoc) (issued last now : Instant)
      → s.doc ≡ some doc
      → doc.issued_at ≡ some issued
      → s.last_heartbeat_error ≢ none
      → s.last_heartbeat_attempt ≡ some last
      → now < last + heartbeat_retry
      → heartbeat_due interval s now ≡ false
  unfolding heartbeat_due
  due_after_failure interval s doc issued last now d i e a h = ground arith

  -- After an attempt that left an error, whatever failed and also if the server refused, no
  -- heartbeat is due for an hour, provided that the held document carries its instant of issue.
  pub retry_spacing :
      (w : World) (fp raw : Str) (held doc : LicenseDoc) (s : LicenseState) (interval : Duration)
      (issued now : Instant)
      → let s' = attempt_if_held c w fp (some raw) (some held) s in
        s'.doc ≡ some doc
        → doc.issued_at ≡ some issued
        → s'.last_heartbeat_error ≢ none
        → now < w.now + heartbeat_retry
        → heartbeat_due interval s' now ≡ false
  unfolding attempt_if_held
  retry_spacing w fp raw held doc s interval issued now d i e h =
      due_after_failure interval _ doc issued w.now now d i e (attempt-attempt w fp raw _) h
