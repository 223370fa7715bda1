-- ===== src/License/Tick/Liveness.antt =====
-- apps/api/src/security/license.rs: the background ticks. A heartbeat that is wanted is attempted, if
-- the ticks go on.
use migration_platform.Prelude.{
  ◌+◌, ◌≤◌, ◌≡◌, ◌⊎◌, ap, sym, ◌∙◌, Option-cases, Bool, true, false, none, some, List, ◌∷◌, inl,
  inr,
}
use migration_platform.Text.{Str, lit}
use migration_platform.Time.{Instant}
use migration_platform.License.Types.{
  LicenseDoc, LicenseState, opt_eq, stamp_eq, opt_eq_refl, stamp_eq_refl,
}
use migration_platform.License.Signing.{Codec}
use migration_platform.License.Validity.{heartbeat_retry}
use migration_platform.License.Heartbeat.{heartbeat_interval, heartbeat_due}
use migration_platform.License.Client.{World, store_path}
use migration_platform.License.Tick.{beat, heartbeat_tick, reload_store_if_changed}

-- The license wants a heartbeat at the tick's instant: it is older than the interval, and the last
-- attempt, if any, is longer ago than the time for a retry.
pub record IsOverdue (w : World) (s : LicenseState) : Type 0 where
  pub doc : LicenseDoc
  pub raw : Str
  pub issued : Instant
  pub holds : s.doc ≡ some doc
  pub text : s.raw ≡ some raw
  pub wants : doc.requires_heartbeat ≡ true
  pub dated : doc.issued_at ≡ some issued
  pub kept : s.revoked_reason ≡ none
  pub old : issued + heartbeat_interval (w.var (lit "LICENSE_HEARTBEAT_INTERVAL_SECS")) ≤ w.now
  pub waited :
      (s.last_heartbeat_attempt ≡ none)
      ⊎ ((last : Instant) × (s.last_heartbeat_attempt ≡ some last)
          × (last + heartbeat_retry ≤ w.now))

abbrev pub is_due : World → LicenseState → Bool
is_due w s =
    heartbeat_due (heartbeat_interval (w.var (lit "LICENSE_HEARTBEAT_INTERVAL_SECS"))) s w.now

module _ (c : Codec) (fp : Str) where
  -- One of the ticks attempts a heartbeat, and records the instant.
  pub data Attempted : List World → LicenseState → Type 0 where
    now :
        {w : World} {ws : List World} {s : LicenseState}
        → (heartbeat_tick c w fp s).last_heartbeat_attempt ≡ some w.now
        → Attempted (w ∷ ws) s
    later :
        {w : World} {ws : List World} {s : LicenseState}
        → Attempted ws (heartbeat_tick c w fp s)
        → Attempted (w ∷ ws) s

  -- There is no store file, or it is the one that the process has read or written last.
  abbrev pub IsKnown : World → LicenseState → Type 0
  IsKnown w s = (w.file_stamp (store_path w) ≡ none) ⊎ (w.file_stamp (store_path w) ≡ s.store_stamp)

  reload_nothing :
      (w : World) (s : LicenseState) → IsKnown w s → reload_store_if_changed c w fp s ≡ s
  unfolding reload_store_if_changed
  reload_nothing w s (inl h) = rw (reload_store_if_changed, h)
  reload_nothing w s (inr h) = elim (Option-cases (w.file_stamp (store_path w))) [
    | inl e ↦ rw (reload_store_if_changed, e)
    | inr (stamp, e) ↦
        let seen : s.store_stamp ≡ some stamp = sym h ∙ e in
        let same : opt_eq stamp_eq s.store_stamp (some stamp) ≡ true =
          rw seen (opt_eq_refl stamp_eq stamp_eq_refl (some stamp)) in
        rw (reload_store_if_changed, e, same)
  ]

  pub tick-beat :
      (w : World) (s : LicenseState) → IsKnown w s → heartbeat_tick c w fp s ≡ beat c w fp s
  unfolding heartbeat_tick
  tick-beat w s h = ap (beat c w fp) (reload_nothing w s h)

  pub beat_not_due : (w : World) (s : LicenseState) → is_due w s ≡ false → beat c w fp s ≡ s
  unfolding beat
  beat_not_due w s h = rw h
