-- ===== src/License/Types.antt =====
-- apps/api/src/security/license.rs: the license document, the reasons why it is not usable, and
-- the state that the process keeps of it. Text is `Str`; `SystemTime` in a file stamp is a number.
use migration_platform.Prelude.{
  ℕ, ◌≡◌, refl, Bool, true, false, ◌&&◌, Option, none, some, List, ◌==◌,
}
use migration_platform.Prelude.{[], ◌∷◌, arith, if◌then◌else◌}
use migration_platform.Text.{Str, lit, str_eq, str_eq_refl}
use migration_platform.Time.{Instant}

pub data LicenseKind : Type 0 where
  trial commercial : LicenseKind

pub record LicenseDoc : Type 0 where
  pub licensee : Str
  pub expires_at : Instant
  pub features : List Str
  pub max_seats : Option ℕ
  pub issued_at : Option Instant
  pub kind : LicenseKind
  pub fingerprint : Option Str
  pub requires_heartbeat : Bool

pub data LicenseProblem : Type 0 where
  expired fingerprint_mismatch heartbeat_grace_expired missing_issued_at revoked : LicenseProblem

unfoldable pub problem_as_str : LicenseProblem → Str
problem_as_str expired = lit "expired"
problem_as_str fingerprint_mismatch = lit "fingerprint_mismatch"
problem_as_str heartbeat_grace_expired = lit "heartbeat_grace_expired"
problem_as_str missing_issued_at = lit "missing_issued_at"
problem_as_str revoked = lit "revoked"

-- (mtime, len) of the store file
abbrev pub Stamp : Type 0
Stamp = ℕ × ℕ

pub record LicenseState : Type 0 where
  pub doc : Option LicenseDoc
  pub raw : Option Str
  pub revoked_reason : Option Str
  pub last_heartbeat_attempt : Option Instant
  pub last_heartbeat_error : Option Str
  pub store_stamp : Option Stamp

-- A verified license, with its signed text and the stamp of the file that it came from.
pub record LoadedLicense : Type 0 where
  pub doc : LicenseDoc
  pub raw : Str
  pub store_stamp : Option Stamp

abbrev pub initial_state : LicenseState
initial_state = record {
  doc = none;
  raw = none;
  revoked_reason = none;
  last_heartbeat_attempt = none;
  last_heartbeat_error = none;
  store_stamp = none;
}

-- The derived equalities.
unfoldable pub opt_eq {ℓ} : {A : Type ℓ} → (A → A → Bool) → Option A → Option A → Bool
opt_eq e none none = true
opt_eq e none (some b) = false
opt_eq e (some a) none = false
opt_eq e (some a) (some b) = e a b

unfoldable pub list_eq {ℓ} : {A : Type ℓ} → (A → A → Bool) → List A → List A → Bool
list_eq e [] [] = true
list_eq e [] (y ∷ ys) = false
list_eq e (x ∷ xs) [] = false
list_eq e (x ∷ xs) (y ∷ ys) = e x y && list_eq e xs ys

unfoldable pub kind_eq : LicenseKind → LicenseKind → Bool
kind_eq trial trial = true
kind_eq trial commercial = false
kind_eq commercial trial = false
kind_eq commercial commercial = true

unfoldable pub bool_eq : Bool → Bool → Bool
bool_eq true b = b
bool_eq false b = if b then false else true

unfoldable pub nat_eq : ℕ → ℕ → Bool
nat_eq a b = a == b

unfoldable pub stamp_eq : Stamp → Stamp → Bool
stamp_eq (m, n) (m', n') = (m == m') && (n == n')

unfoldable pub doc_eq : LicenseDoc → LicenseDoc → Bool
doc_eq a b =
    str_eq a.licensee b.licensee
    && (a.expires_at == b.expires_at)
    && list_eq str_eq a.features b.features
    && opt_eq nat_eq a.max_seats b.max_seats
    && opt_eq nat_eq a.issued_at b.issued_at
    && kind_eq a.kind b.kind
    && opt_eq str_eq a.fingerprint b.fingerprint
    && bool_eq a.requires_heartbeat b.requires_heartbeat

pub list_eq_refl {ℓ} :
    {A : Type ℓ} (e : A → A → Bool) → ((a : A) → e a a ≡ true) → (l : List A) → list_eq e l l ≡ true
unfolding list_eq
list_eq_refl e h [] = refl
list_eq_refl e h (x ∷ xs) = ground (arith, h x, list_eq_refl e h xs)

pub opt_eq_refl {ℓ} :
    {A : Type ℓ} (e : A → A → Bool)
    → ((a : A) → e a a ≡ true)
    → (o : Option A) → opt_eq e o o ≡ true
unfolding opt_eq
opt_eq_refl e h none = refl
opt_eq_refl e h (some a) = h a

pub stamp_eq_refl : (s : Stamp) → stamp_eq s s ≡ true
unfolding stamp_eq
stamp_eq_refl (m, n) = ground arith

nat_eq_refl : (n : ℕ) → nat_eq n n ≡ true
unfolding nat_eq
nat_eq_refl n = ground arith

kind_eq_refl : (k : LicenseKind) → kind_eq k k ≡ true
unfolding kind_eq
kind_eq_refl trial = refl
kind_eq_refl commercial = refl

bool_eq_refl : (b : Bool) → bool_eq b b ≡ true
unfolding bool_eq
bool_eq_refl true = refl
bool_eq_refl false = refl

pub doc_eq_refl : (d : LicenseDoc) → doc_eq d d ≡ true
unfolding doc_eq
doc_eq_refl d = ground (
  arith,
  str_eq_refl d.licensee,
  list_eq_refl str_eq str_eq_refl d.features,
  opt_eq_refl nat_eq nat_eq_refl d.max_seats,
  opt_eq_refl nat_eq nat_eq_refl d.issued_at,
  kind_eq_refl d.kind,
  opt_eq_refl str_eq str_eq_refl d.fingerprint,
  bool_eq_refl d.requires_heartbeat,
)
