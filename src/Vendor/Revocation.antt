-- ===== src/Vendor/Revocation.antt =====
-- Revoking a license, and undoing it: what the two handlers make of it.
use migration_platform.Prelude.{
  ◌≡◌, ◌≢◌, ◌⊎◌, refl, inl, inr, true, List, [], ◌∷◌, Option, none, some, is_some, ok, err,
  Option-cases, Result-cases, is_ok, false, arith,
}
use migration_platform.Text.{Str, lit, str_eq_iff, str_eq_refl}
use migration_platform.Time.{Instant}
use migration_platform.License.Types.{LicenseDoc}
use migration_platform.License.Signing.{Codec}
use migration_platform.Vendor.Types.{
  ServerConfig, ServerState, TrialRecord, Revocation, HeartbeatRequest, Arrival,
}
use migration_platform.Vendor.Guards.{normalize_fingerprint}
use migration_platform.Vendor.Store.{
  find_trial, update_trial, find_revocation, upsert_revocation, delete_revocations, set_revoked,
  revoke, unrevoke,
}
use migration_platform.Vendor.Heartbeat.{heartbeat, attest, revoked_error}
use migration_platform.Vendor.Heartbeat.Verdict.{heartbeat_granted}

-- Some revocation stops the license.
abbrev pub IsRevoked : Str → Str → List Revocation → Type 0
IsRevoked fp licensee rs = is_some (find_revocation fp licensee rs) ≡ true

upsert-IsRevoked :
    (v : Revocation) (licensee : Str) (rs : List Revocation)
    → (v.licensee ≡ licensee) ⊎ (v.licensee ≡ lit "*")
    → IsRevoked v.fingerprint licensee (upsert_revocation v rs)
unfolding upsert_revocation find_revocation
upsert-IsRevoked v licensee [] h = ground (
  arith,
  str_eq_iff v.licensee licensee,
  str_eq_iff v.licensee (lit "*"),
  str_eq_refl v.fingerprint,
)
upsert-IsRevoked v licensee (r ∷ rs) h = ground (
  arith,
  str_eq_iff r.fingerprint v.fingerprint,
  str_eq_iff r.licensee v.licensee,
  str_eq_iff r.licensee licensee,
  str_eq_iff r.licensee (lit "*"),
  upsert-IsRevoked v licensee rs h,
)

-- A revocation stands for every license that it names.
pub revoke-IsRevoked :
    (c : Codec) (now : Instant) (raw fp l licensee reason : Str) (s : ServerState)
    → normalize_fingerprint raw ≡ ok fp
    → (l ≡ licensee) ⊎ (l ≡ lit "*")
    → IsRevoked fp licensee (revoke c now raw l reason s).1.revocations
unfolding revoke
revoke-IsRevoked c now raw fp l licensee reason s named h =
    rw (named, revoke) (upsert-IsRevoked _ licensee s.revocations h)

delete_all :
    (fp licensee : Str) (rs : List Revocation)
    → find_revocation fp licensee (delete_revocations fp none rs).0 ≡ none
unfolding find_revocation delete_revocations
delete_all fp licensee [] = refl
delete_all fp licensee (r ∷ rs) = ground (arith, delete_all fp licensee rs)

delete_other :
    (fp l licensee : Str) (rs : List Revocation)
    → l ≢ lit "*"
    → IsRevoked fp (lit "*") rs
    → IsRevoked fp licensee (delete_revocations fp (some l) rs).0
unfolding find_revocation delete_revocations
delete_other fp l licensee [] ne h = cc
delete_other fp l licensee (r ∷ rs) ne h = ground (
  arith,
  str_eq_iff r.licensee l,
  str_eq_iff r.licensee (lit "*"),
  delete_other fp l licensee rs ne,
)

find-update :
    (fp : Str) (at reason : Option Str) (rs : List TrialRecord) (row : TrialRecord)
    → find_trial fp (update_trial fp (set_revoked at reason) rs) ≡ some row
    → row.revoked_reason ≡ reason
unfolding find_trial update_trial
find-update fp at reason [] row h = cc
find-update fp at reason (r ∷ rs) row h = ground (arith, find-update fp at reason rs row)

-- After a revocation the heartbeat of every license that it names answers 403, and a trial start of
-- the install finds a revoked row, if it finds one.
pub revoke_stops :
    (c : Codec) (cfg : ServerConfig) (now later : Instant) (raw fp licensee reason : Str)
    (req : HeartbeatRequest) (doc : LicenseDoc) (s : ServerState)
    → normalize_fingerprint raw ≡ ok fp
    → (licensee ≡ doc.licensee) ⊎ (licensee ≡ lit "*")
    → let s' = (revoke c now raw licensee reason s).1 in
      ((v : Revocation) × ((attest c cfg later fp req doc s').0 ≡ err (revoked_error c v)))
      × ((row : TrialRecord)
          → find_trial fp s'.trials ≡ some row
          → row.revoked_reason ≡ some reason)
revoke_stops c cfg now later raw fp licensee reason req doc s named h =
    let v : Revocation = record {
      fingerprint = fp;
      licensee = licensee;
      reason = some reason;
      revoked_at = c.to_rfc3339 now;
    } in
    elim (Option-cases (find_revocation fp doc.licensee (upsert_revocation v s.revocations))) [
      | inl e ↦ absurd (ground (arith, upsert-IsRevoked v doc.licensee s.revocations h))
      | inr (w, e) ↦ (
        (w, unfold revoke attest in rw (named, e, revoke, attest)),
        λ row er.
            find-update fp (some (c.to_rfc3339 now)) (some reason) s.trials row
              (unfold revoke in rw (named, revoke) at er),
      )
    ]

-- Undoing every revocation of an install leaves none for any licensee, and no mark on its row.
pub unrevoke_all :
    (raw fp licensee : Str) (s : ServerState)
    → normalize_fingerprint raw ≡ ok fp
    → let s' = (unrevoke raw none s).1 in
      (find_revocation fp licensee s'.revocations ≡ none)
      × ((row : TrialRecord) → find_trial fp s'.trials ≡ some row → row.revoked_reason ≡ none)
unfolding unrevoke
unrevoke_all raw fp licensee s named = (
  rw (named, unrevoke) (delete_all fp licensee s.revocations),
  λ row e. find-update fp none none s.trials row (rw (named, unrevoke) at e),
)

-- An install of which every license is revoked is granted no heartbeat.
barred_refused :
    (c : Codec) (cfg : ServerConfig) (a : Arrival) (req : HeartbeatRequest) (fp : Str)
    (s : ServerState)
    → normalize_fingerprint req.fingerprint ≡ ok fp
    → ((licensee : Str) → IsRevoked fp licensee s.revocations)
    → is_ok (heartbeat c cfg a req s).0 ≡ false
barred_refused c cfg a req fp s named barred = elim (Result-cases (heartbeat c cfg a req s).0) [
  | inr (e, refused) ↦ rw refused refl
  | inl (r, granted) ↦
      let (fp', raw, k, doc, n, w, q, verified, bound, free, signed, issued, later, own) =
        heartbeat_granted c cfg a req s r granted in
      let here : find_revocation fp doc.licensee s.revocations ≡ none = cc in
      absurd (ground (arith, barred doc.licensee, here))
]

-- Undoing the revocation of one licensee also clears the mark on the row of the install, although
-- a revocation of all its licenses (`*`) stands and the next heartbeat of the install is refused,
-- whatever license it presents.
pub unrevoke_one_clears_row :
    (c : Codec) (cfg : ServerConfig) (a : Arrival) (req : HeartbeatRequest) (raw fp l : Str)
    (s : ServerState)
    → normalize_fingerprint raw ≡ ok fp
    → normalize_fingerprint req.fingerprint ≡ ok fp
    → l ≢ lit "*"
    → IsRevoked fp (lit "*") s.revocations
    → let s' = (unrevoke raw (some l) s).1 in
      (is_ok (heartbeat c cfg a req s').0 ≡ false)
      × ((row : TrialRecord) → find_trial fp s'.trials ≡ some row → row.revoked_reason ≡ none)
unfolding unrevoke
unrevoke_one_clears_row c cfg a req raw fp l s named same ne h = (
  barred_refused c cfg a req fp (unrevoke raw (some l) s).1 same
      (λ licensee. rw (named, unrevoke, IsRevoked) (delete_other fp l licensee s.revocations ne h)),
  λ row e. find-update fp none none s.trials row (rw (named, unrevoke) at e),
)
