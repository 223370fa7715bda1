-- ===== src/License/Heartbeat/Laws.antt =====
-- The schedule of heartbeats, the order of adoption, and what the gate lets pass.
use migration_platform.Prelude.{
  refl, sym, ap, ◌∙◌, inl, inr, Result, Option, none, some, ◌<◌, is_ok, ◌<◌, ◌≡◌, ◌↔◌, ◌⊎◌, Bool,
  true, false, some, ok, err, arith,
}
use migration_platform.Text.{Str}
use migration_platform.Time.{Instant}
use migration_platform.Api.{ApiError, status_and_code}
use migration_platform.License.Types.{LicenseDoc, LicenseState}
use migration_platform.License.Validity.Laws.{IsUsable, is_licensed_iff}
use migration_platform.License.Validity.{is_licensed}
use migration_platform.Int.{ℤ, pos, negsuc, parse_i64}
use migration_platform.License.Heartbeat.{
  interval_of, heartbeat_interval, denial, should_adopt, require_licensed,
}

-- Two documents never replace one another in turn while both are usable: if one that is held gives
-- way to the other, then the other, once held, does not give way to it.
pub should_adopt_asymmetric :
    (s t : LicenseState) (a b : LicenseDoc) (fp : Str) (now : Instant)
    → s.doc ≡ some a
    → t.doc ≡ some b
    → is_licensed s fp now ≡ true
    → is_licensed t fp now ≡ true
    → should_adopt s b fp now ≡ true
    → should_adopt t a fp now ≡ false
unfolding should_adopt is_licensed
should_adopt_asymmetric s t a b fp now da db ls lt h = ground arith

positive : (n : Option ℤ) → 0 < interval_of n
positive none = omega arith
positive (some (pos n)) = ground arith
positive (some (negsuc n)) = omega arith

-- The interval is never zero, whatever the environment says.
pub heartbeat_interval_pos : (v : Option Str) → 0 < heartbeat_interval v
unfolding heartbeat_interval
heartbeat_interval_pos none = omega arith
heartbeat_interval_pos (some v) = positive (parse_i64 v)

-- Where enforcement is on, the gate passes exactly when the process is licensed.
pub require_licensed-is_licensed :
    (state : LicenseState) (fp : Str) (now : Instant)
    → is_ok (require_licensed true state fp now) ≡ is_licensed state fp now
unfolding require_licensed is_licensed
require_licensed-is_licensed state fp now = ground arith

is_ok-eq : {E : Type 0} (r : Result E (Unit {0})) → is_ok r ≡ true → r ≡ ok tt
is_ok-eq (ok tt) h = refl
is_ok-eq (err e) h = cc

-- The gate passes exactly when enforcement is off or a usable license is held that is not revoked.
pub require_licensed_iff :
    (enforce : Bool) (state : LicenseState) (fp : Str) (now : Instant)
    → (require_licensed enforce state fp now ≡ ok tt) ↔ (
        (enforce ≡ false)
        ⊎ ((doc : LicenseDoc) × (state.doc ≡ some doc)
            × (state.revoked_reason ≡ none)
            × IsUsable doc fp now))
unfolding require_licensed
require_licensed_iff false state fp now = ground arith
require_licensed_iff true state fp now =
    let gate = require_licensed-is_licensed state fp now in
    let held = is_licensed_iff state fp now in
    (
      λ h. inr (held.0 (sym gate ∙ ap is_ok h)),
      λ h. elim h [
        | inl off ↦ cc off
        | inr u ↦ is_ok-eq (require_licensed true state fp now) (gate ∙ held.1 u)
      ],
    )

-- A refusal of the gate answers 402, whatever the reason.
pub require_licensed_402 :
    (enforce : Bool) (state : LicenseState) (fp : Str) (now : Instant) (e : ApiError)
    → require_licensed enforce state fp now ≡ err e
    → (status_and_code e).0 ≡ 402
unfolding require_licensed denial status_and_code
require_licensed_402 enforce state fp now e h = ground arith
