-- ===== src/Vendor/Store/Laws.antt =====
-- What the statements on the tables leave of a trial's row.
use mathlib.Core.Path.{subst}
use migration_platform.Prelude.{
  ◌≤◌, ◌≡◌, Bool, true, false, List, [], ◌∷◌, Option, none, some, arith, Bool-cases, if◌then◌else◌,
  Result-cases, inl, inr,
}
use migration_platform.Text.{Str, str_eq, str_eq_iff}
use migration_platform.Time.{Instant}
use migration_platform.License.Signing.{Codec}
use migration_platform.Vendor.Types.{TrialRecord, ServerState}
use migration_platform.Vendor.Guards.{normalize_fingerprint}
use migration_platform.Vendor.Store.{find_trial, update_trial, revoke, unrevoke}

-- One row after another: it belongs to the same install, started and expires when it did, and has
-- counted no fewer heartbeats.
pub record Continues (old new : TrialRecord) : Type 0 where
  pub same_install : new.fingerprint ≡ old.fingerprint
  pub same_start : new.started_at ≡ old.started_at
  pub same_expiry : new.expires_at ≡ old.expires_at
  pub count_grows : old.heartbeat_count ≤ new.heartbeat_count

-- Every row of the first table goes on in the second.
abbrev pub Keeps : List TrialRecord → List TrialRecord → Type 0
Keeps a b =
    (fp : Str) (row : TrialRecord)
    → find_trial fp a ≡ some row
    → (row' : TrialRecord) × (find_trial fp b ≡ some row') × Continues row row'

Continues-refl : (r : TrialRecord) → Continues r r
Continues-refl r = ground arith

Continues-trans : (a b c : TrialRecord) → Continues a b → Continues b c → Continues a c
Continues-trans a b c h k = ground arith

Continues-if :
    (b : Bool) (f : TrialRecord → TrialRecord) (r : TrialRecord)
    → Continues r (f r)
    → Continues r (if b then f r else r)
Continues-if true f r h = h
Continues-if false f r h = Continues-refl r

pub Keeps-refl : (a : List TrialRecord) → Keeps a a
Keeps-refl a fp row h = (row, h, Continues-refl row)

pub Keeps-trans : (a b c : List TrialRecord) → Keeps a b → Keeps b c → Keeps a c
Keeps-trans a b c h k fp row e =
    let (row₁, e₁, c₁) = h fp row e in
    let (row₂, e₂, c₂) = k fp row₁ e₁ in (row₂, e₂, Continues-trans row row₁ row₂ c₁ c₂)

pub Keeps-update :
    (fp : Str) (f : TrialRecord → TrialRecord)
    → ((r : TrialRecord) → Continues r (f r))
    → (a : List TrialRecord) → Keeps a (update_trial fp f a)
unfolding find_trial update_trial
Keeps-update fp f keep [] fp' row h = cc
Keeps-update fp f keep (r ∷ rs) fp' row h =
    let r' : TrialRecord = if str_eq r.fingerprint fp then f r else r in
    let c : Continues r r' = Continues-if (str_eq r.fingerprint fp) f r (keep r) in
    elim (Bool-cases (str_eq r.fingerprint fp')) [
      | inl e ↦
          let p : r ≡ row = ground arith in
          (r', rw (c.same_install, e), subst (λ old. Continues old r') p c)
      | inr e ↦
          let (row', e', c') = Keeps-update fp f keep rs fp' row (ground arith) in
          (row', rw (c.same_install, e) e', c')
    ]

pub Keeps-insert :
    (new : TrialRecord) (a : List TrialRecord)
    → find_trial new.fingerprint a ≡ none
    → Keeps a (new ∷ a)
unfolding find_trial
Keeps-insert new a absent fp row h = elim (Bool-cases (str_eq new.fingerprint fp)) [
  | inl e ↦ cc (absent, h, (str_eq_iff new.fingerprint fp).0 e)
  | inr e ↦ (row, ground arith, Continues-refl row)
]

pub revoke-Keeps :
    (c : Codec) (now : Instant) (fp licensee reason : Str) (s : ServerState)
    → Keeps s.trials (revoke c now fp licensee reason s).1.trials
unfolding revoke
revoke-Keeps c now fp licensee reason s = elim (Result-cases (normalize_fingerprint fp)) [
  | inl (n, e) ↦ rw (e, revoke) (Keeps-update n _ (λ r. ground arith) s.trials)
  | inr (why, e) ↦ rw (e, revoke) (Keeps-refl s.trials)
]

pub unrevoke-Keeps :
    (fp : Str) (licensee : Option Str) (s : ServerState)
    → Keeps s.trials (unrevoke fp licensee s).1.trials
unfolding unrevoke
unrevoke-Keeps fp licensee s = elim (Result-cases (normalize_fingerprint fp)) [
  | inl (n, e) ↦ rw (e, unrevoke) (Keeps-update n _ (λ r. ground arith) s.trials)
  | inr (why, e) ↦ rw (e, unrevoke) (Keeps-refl s.trials)
]
