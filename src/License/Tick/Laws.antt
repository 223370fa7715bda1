-- ===== src/License/Tick/Laws.antt =====
-- What a tick of the heartbeat can do to a held license.
use migration_platform.Prelude.{
  ℕ, ◌≡◌, ◌≢◌, ◌∙◌, refl, inl, inr, true, Option, none, some, ok, err, Result, arith, Option-cases,
  Result-cases,
}
use migration_platform.Text.{Str}
use migration_platform.Time.{Instant}
use migration_platform.Json.{Value}
use migration_platform.License.Types.{LicenseDoc, LicenseState, LoadedLicense, Stamp}
use migration_platform.License.Signing.{Codec}
use migration_platform.License.Validity.{is_licensed}
use migration_platform.License.Heartbeat.{should_adopt}
use migration_platform.License.Client.{
  World, LicenseServer, HttpReply, build_failed, send_failed, body_failed, answered,
  HeartbeatOutcome, refreshed, denied, unavailable, judge_status, judge_reply, heartbeat_once,
  from_env, store_path, load_public_key, load_and_verify_path,
}
use migration_platform.License.Tick.{
  record_outcome, adopt_or_skip, reload_store_if_changed, attempt, attempt_if_held, beat,
  heartbeat_tick,
}

-- The server gives no answer on which the license is judged: it cannot be reached, the response
-- breaks off, or its status is none of 200, 402 and 403.
abbrev pub Silent : World → Type 0
Silent w =
    (url token : Str) (body : Value) (status : ℕ) (text : Str)
    → w.http url token body ≡ answered status text
    → (status ≢ 200) × (status ≢ 402) × (status ≢ 403)

abbrev IsUnavailable : HeartbeatOutcome → Type 0
IsUnavailable (refreshed loaded) = ⊥
IsUnavailable (denied status reason) = ⊥
IsUnavailable (unavailable e) = Unit

-- The fields that decide whether a license is held and usable.
abbrev pub SameLicense : LicenseState → LicenseState → Type 0
SameLicense s t = (t.doc ≡ s.doc) × (t.raw ≡ s.raw) × (t.revoked_reason ≡ s.revoked_reason)

is_licensed-same :
    (s t : LicenseState) (fp : Str) (now : Instant)
    → SameLicense s t
    → is_licensed t fp now ≡ is_licensed s fp now
unfolding is_licensed
is_licensed-same s t fp now h = ground arith

module _ (c : Codec) where
  judge_status-IsUnavailable :
      (now : Instant) (fp : Str) (key : c.PublicKey) (status : ℕ) (text : Str)
      → (status ≢ 200) × (status ≢ 402) × (status ≢ 403)
      → IsUnavailable (judge_status c now fp key status text)
  unfolding judge_status
  judge_status-IsUnavailable now fp key status text h = ground arith

  judge_reply-IsUnavailable :
      (w : World) (url fp : Str) (key : c.PublicKey) (reply : HttpReply)
      → ((status : ℕ) (text : Str)
          → reply ≡ answered status text
          → (status ≢ 200) × (status ≢ 402) × (status ≢ 403))
      → IsUnavailable (judge_reply c w url fp key reply)
  unfolding judge_reply
  judge_reply-IsUnavailable w url fp key (build_failed e) silent = tt
  judge_reply-IsUnavailable w url fp key (send_failed e) silent = tt
  judge_reply-IsUnavailable w url fp key (body_failed e) silent = tt
  judge_reply-IsUnavailable w url fp key (answered status text) silent =
      judge_status-IsUnavailable w.now fp key status text (silent status text refl)

  heartbeat_once-IsUnavailable :
      (w : World) (server : LicenseServer) (fp raw : Str) (key : c.PublicKey)
      → Silent w
      → IsUnavailable (heartbeat_once c w server fp raw key)
  unfolding heartbeat_once
  heartbeat_once-IsUnavailable w server fp raw key silent =
      elim (Option-cases (c.value_of_text raw)) [
        | inl e ↦ rw (e, heartbeat_once, IsUnavailable) tt
        | inr (v, e) ↦
            rw (e, heartbeat_once, IsUnavailable)
              (judge_reply-IsUnavailable w _ fp key _ (silent _ _ _))
      ]

  record_outcome-same :
      (w : World) (o : HeartbeatOutcome) (s : LicenseState)
      → IsUnavailable o
      → SameLicense s (record_outcome w o s)
  unfolding record_outcome
  record_outcome-same w (unavailable e) s h = ground arith
  record_outcome-same w o s h = absurd h

  attempt-same :
      (w : World) (fp raw : Str) (s : LicenseState)
      → Silent w
      → SameLicense s (attempt c w fp raw s)
  unfolding attempt
  attempt-same w fp raw s silent = elim (Option-cases (from_env w)) [
    | inl e ↦ rw (e, attempt) (refl, refl, refl)
    | inr (server, e) ↦ elim (Result-cases (load_public_key c w)) [
      | inl (key, k) ↦
          rw (e, k, attempt)
            (record_outcome-same w _ s (heartbeat_once-IsUnavailable w server fp raw key silent))
      | inr (why, k) ↦ rw (e, k, attempt) (refl, refl, refl)
    ]
  ]

  attempt_if_held-same :
      (w : World) (fp : Str) (raw : Option Str) (doc : Option LicenseDoc) (s : LicenseState)
      → Silent w
      → SameLicense s (attempt_if_held c w fp raw doc s)
  unfolding attempt_if_held
  attempt_if_held-same w fp (some raw) (some doc) s silent =
      attempt-same w fp raw (record s { last_heartbeat_attempt = some w.now }) silent
  attempt_if_held-same w fp none doc s silent = (refl, refl, refl)
  attempt_if_held-same w fp (some raw) none s silent = (refl, refl, refl)

  beat-same : (w : World) (fp : Str) (s : LicenseState) → Silent w → SameLicense s (beat c w fp s)
  unfolding beat
  beat-same w fp s silent = ground (arith, attempt_if_held-same w fp s.raw s.doc s silent)

  adopt_or_skip-licensed :
      (w : World) (fp : Str) (stamp : Stamp) (r : Result Str LoadedLicense) (s : LicenseState)
      → is_licensed s fp w.now ≡ true
      → is_licensed (adopt_or_skip c w fp stamp r s) fp w.now ≡ true
  unfolding adopt_or_skip should_adopt is_licensed
  adopt_or_skip-licensed w fp stamp (ok loaded) s h = ground arith
  adopt_or_skip-licensed w fp stamp (err e) s h = ground arith

  reload-licensed :
      (w : World) (fp : Str) (s : LicenseState)
      → is_licensed s fp w.now ≡ true
      → is_licensed (reload_store_if_changed c w fp s) fp w.now ≡ true
  unfolding reload_store_if_changed
  reload-licensed w fp s h = elim (Option-cases (w.file_stamp (store_path w))) [
    | inl e ↦ rw (e, reload_store_if_changed) h
    | inr (stamp, e) ↦ elim (Result-cases (load_public_key c w)) [
      | inl (key, k) ↦ ground (
        arith,
        e,
        k,
        adopt_or_skip-licensed w fp stamp (load_and_verify_path c w (store_path w) key fp) s h,
      )
      | inr (why, k) ↦ ground (arith, e, k)
    ]
  ]

  -- While the server is silent, a tick keeps a usable license usable: a failing network never takes
  -- away a license that has not expired and is inside its grace.
  pub heartbeat_tick-Silent :
      (w : World) (fp : Str) (s : LicenseState)
      → Silent w
      → is_licensed s fp w.now ≡ true
      → is_licensed (heartbeat_tick c w fp s) fp w.now ≡ true
  unfolding heartbeat_tick
  heartbeat_tick-Silent w fp s silent h =
      let s' = reload_store_if_changed c w fp s in
      is_licensed-same s' (beat c w fp s') fp w.now (beat-same w fp s' silent)
      ∙ reload-licensed w fp s h
