-- ===== src/License/Validity/Laws.antt =====
-- When a license is usable, and for how long.
use migration_platform.Prelude.{
  is_some, is_none, ◌+◌, ◌*◌, ◌-◌, ◌/◌, ◌≤◌, ◌<◌, ◌≡◌, refl, ◌↔◌, ◌⊎◌, Bool, true, false, Option,
  none, some, [], ◌∷◌, Result, ok, err, arith, is_empty, ◌&&◌, error_of, if◌then◌else◌,
}
use migration_platform.Text.{Str, str_eq_iff}
use migration_platform.Time.{Instant}
use migration_platform.License.Types.{LicenseDoc, LicenseState, LicenseProblem, revoked}
use migration_platform.License.Validity.{
  check_binding, check_grace, validity, is_licensed, grace_until, days_remaining, heartbeat_grace,
  doc_problem,
}

abbrev BoundTo : Option Str → Str → Type 0
BoundTo none fp = Unit
BoundTo (some bound) fp = (fp ≡ []) ⊎ (bound ≡ fp)

abbrev InGrace : Bool → Option Instant → Instant → Type 0
InGrace false issued_at now = Unit
InGrace true none now = ⊥
InGrace true (some issued) now = now ≤ issued + heartbeat_grace

-- What makes a document usable at an instant.
pub record IsUsable (doc : LicenseDoc) (fp : Str) (now : Instant) : Type 0 where
  pub unexpired : now < doc.expires_at
  pub bound_here : BoundTo doc.fingerprint fp
  pub attested : InGrace doc.requires_heartbeat doc.issued_at now

not_empty : (s : Str) → (is_empty s ≡ true) ↔ (s ≡ [])
not_empty [] = ground arith
not_empty (c ∷ s) = ground arith

check_binding_iff :
    (bound : Option Str) (fp : Str) → (check_binding bound fp ≡ ok tt) ↔ BoundTo bound fp
unfolding check_binding
check_binding_iff none fp = ground arith
check_binding_iff (some bound) fp = ground (arith, not_empty fp, str_eq_iff bound fp)

check_grace_iff :
    (r : Bool) (issued : Option Instant) (now : Instant)
    → (check_grace r issued now ≡ ok tt) ↔ InGrace r issued now
unfolding check_grace
check_grace_iff false issued now = ground arith
check_grace_iff true none now = ground arith
check_grace_iff true (some issued) now = ground arith

-- `validity` accepts a document exactly when it has not expired, is bound to this install or to
-- none (or the local fingerprint is unknown), and, where it requires a heartbeat, was issued at
-- most 72 hours ago.
pub validity_iff :
    (doc : LicenseDoc) (fp : Str) (now : Instant)
    → (validity doc fp now ≡ ok tt) ↔ IsUsable doc fp now
unfolding validity
validity_iff doc fp now = ground (
  arith,
  check_binding_iff doc.fingerprint fp,
  check_grace_iff doc.requires_heartbeat doc.issued_at now,
)

error_of-eq-none : (r : Result LicenseProblem (Unit {0})) → is_none (error_of r) ≡ true → r ≡ ok tt
error_of-eq-none (ok tt) h = refl
error_of-eq-none (err p) h = cc

InGrace-antitone :
    (r : Bool) (issued : Option Instant) (t now : Instant)
    → t ≤ now
    → InGrace r issued now
    → InGrace r issued t
InGrace-antitone false issued t now le h = tt
InGrace-antitone true none t now le h = h
InGrace-antitone true (some i) t now le h = omega arith

-- A document that is usable at an instant was usable at every earlier one: time alone never makes
-- an unusable license usable again.
pub validity_antitone :
    (doc : LicenseDoc) (fp : Str) (t now : Instant)
    → t ≤ now
    → validity doc fp now ≡ ok tt
    → validity doc fp t ≡ ok tt
validity_antitone doc fp t now le h =
    let u = (validity_iff doc fp now).0 h in
    (validity_iff doc fp t).1 (record {
      unexpired = omega arith;
      bound_here = u.bound_here;
      attested = InGrace-antitone doc.requires_heartbeat doc.issued_at t now le u.attested;
    })

-- For a license with a heartbeat that is usable at some instant, `grace_until` is exact: at any
-- other instant it is usable if and only if it has not expired and grace has not lapsed.
pub grace_until_exact :
    (doc : LicenseDoc) (fp : Str) (t now lapse : Instant)
    → validity doc fp t ≡ ok tt
    → grace_until doc ≡ some lapse
    → (validity doc fp now ≡ ok tt) ↔ ((now < doc.expires_at) × (now ≤ lapse))
unfolding validity grace_until check_grace
grace_until_exact doc fp t now lapse h g = ground arith

-- The count of days is the remaining whole seconds divided by 86,400 and rounded up, and it is 0
-- exactly when less than a second remains.
pub days_remaining_ceiling :
    (doc : LicenseDoc) (now : Instant)
    → let secs = (doc.expires_at - now) / 1_000_000_000 in
      let d = days_remaining doc now in
      (secs ≤ d * 86_400) × (d * 86_400 < secs + 86_400) × ((d ≡ 0) ↔ (secs ≡ 0))
unfolding days_remaining
days_remaining_ceiling doc now = ground arith

licensed_parts :
    (held : Option LicenseDoc) (reason : Option Str) (fp : Str) (now : Instant)
    → (is_some held && is_none (if is_some reason then some revoked else doc_problem held fp now))
      ≡ true
    → (doc : LicenseDoc) × (held ≡ some doc) × (reason ≡ none) × (validity doc fp now ≡ ok tt)
licensed_parts none reason fp now h = cc
licensed_parts (some doc) (some why) fp now h = cc
licensed_parts (some doc) none fp now h =
    (doc, refl, refl, error_of-eq-none (validity doc fp now) h)

-- The gate's predicate: a license is held, it is not revoked, and its document is usable.
pub is_licensed_iff :
    (state : LicenseState) (fp : Str) (now : Instant)
    → (is_licensed state fp now ≡ true) ↔ (
        (doc : LicenseDoc) × (state.doc ≡ some doc)
        × (state.revoked_reason ≡ none)
        × IsUsable doc fp now)
unfolding is_licensed
is_licensed_iff state fp now = (
  λ h.
      let (doc, d, r, v) = licensed_parts state.doc state.revoked_reason fp now h in
      (doc, d, r, (validity_iff doc fp now).0 v),
  λ (doc, d, r, u). ground (arith, (validity_iff doc fp now).1 u),
)
