-- ===== src/Vendor/Store.antt =====
-- apps/api/src/license_server.rs: the statements on the two tables, revoking and its undoing, and
-- the parser of stored instants.
pub mod Laws
use migration_platform.Prelude.{
  ℕ, ◌+◌, Bool, true, false, ◌&&◌, ◌||◌, not, List, [], ◌∷◌, ◌++◌, Option, none, some, Result, ok,
  err, ◌>>=◌, ok_or, if◌then◌else◌,
}
use migration_platform.Text.{Str, lit, str_eq}
use migration_platform.Time.{Instant}
use migration_platform.License.Signing.{Codec}
use migration_platform.Vendor.Types.{TrialRecord, Revocation, ServerState}
use migration_platform.Vendor.Guards.{normalize_fingerprint}

-- SELECT … FROM trials WHERE fingerprint = ?
unfoldable pub find_trial : Str → List TrialRecord → Option TrialRecord
find_trial fp [] = none
find_trial fp (r ∷ rs) = if str_eq r.fingerprint fp then some r else find_trial fp rs

-- UPDATE trials SET … WHERE fingerprint = ?
unfoldable pub update_trial :
    Str → (TrialRecord → TrialRecord) → List TrialRecord → List TrialRecord
update_trial fp f [] = []
update_trial fp f (r ∷ rs) = (if str_eq r.fingerprint fp then f r else r) ∷ update_trial fp f rs

-- The reason of a revocation that names the license, or every license of the install.
unfoldable pub find_revocation : Str → Str → List Revocation → Option Revocation
find_revocation fp licensee [] = none
find_revocation fp licensee (r ∷ rs) =
    if str_eq r.fingerprint fp && (str_eq r.licensee licensee || str_eq r.licensee (lit "*"))
    then some r
    else find_revocation fp licensee rs

-- INSERT INTO revocations … ON CONFLICT DO UPDATE
unfoldable pub upsert_revocation : Revocation → List Revocation → List Revocation
upsert_revocation v [] = v ∷ []
upsert_revocation v (r ∷ rs) =
    if str_eq r.fingerprint v.fingerprint && str_eq r.licensee v.licensee
    then record r { reason = v.reason; revoked_at = v.revoked_at } ∷ rs
    else r ∷ upsert_revocation v rs

abbrev pub names : Option Str → Str → Bool
names none licensee = true
names (some l) licensee = str_eq licensee l

-- DELETE FROM revocations; the count of the rows that went.
unfoldable pub delete_revocations : Str → Option Str → List Revocation → List Revocation × ℕ
delete_revocations fp licensee [] = ([], 0)
delete_revocations fp licensee (r ∷ rs) =
    let (rest, n) = delete_revocations fp licensee rs in
    if str_eq r.fingerprint fp && names licensee r.licensee then (rest, n + 1) else (r ∷ rest, n)

abbrev pub set_revoked : Option Str → Option Str → TrialRecord → TrialRecord
set_revoked at reason r = record r { revoked_at = at; revoked_reason = reason }

unfoldable pub parse_stored_ts : Codec → Str → Option Instant
parse_stored_ts c s = elim (c.parse_rfc3339 s) [ some t ↦ some t | none ↦ c.parse_naive s ]

unfoldable pub revoke :
    Codec → Instant → Str → Str → Str → ServerState → Result Str (Unit {0}) × ServerState
revoke c now fingerprint licensee reason s = elim (normalize_fingerprint fingerprint) [
  | err e ↦ (err e, s)
  | ok fp ↦ (
    ok tt,
    record s {
      revocations =
          upsert_revocation
            (record {
              fingerprint = fp;
              licensee = licensee;
              reason = some reason;
              revoked_at = c.to_rfc3339 now;
            })
            s.revocations;
      trials = update_trial fp (set_revoked (some (c.to_rfc3339 now)) (some reason)) s.trials;
    },
  )
]

unfoldable pub unrevoke : Str → Option Str → ServerState → Result Str ℕ × ServerState
unrevoke fingerprint licensee s = elim (normalize_fingerprint fingerprint) [
  | err e ↦ (err e, s)
  | ok fp ↦
      let (left, n) = delete_revocations fp licensee s.revocations in
      (
        ok n,
        record s { revocations = left; trials = update_trial fp (set_revoked none none) s.trials },
      )
]
