-- ===== src/Sources/Registry/Laws.antt =====
-- The registry stays sound, and what was registered is found again by its organisation.
use migration_platform.Prelude.{
  ℕ, ◌+◌, ◌<◌, ◌≡◌, ◌≢◌, inl, inr, false, ◌&&◌, none, some, List, [], ◌∷◌, All, arith, Bool-cases,
  Option-cases, ◌==◌,
}
use migration_platform.Text.{Str}
use migration_platform.Sources.Types.{RegisteredSource, Registry, NewUpload}
use migration_platform.Sources.Registry.{
  find_source, is_at, lookup_object, refresh, new_source, refresh_at, register_upload,
}

-- No two sources have an id, or a place of an organisation, in common.
abbrev pub Apart : RegisteredSource → RegisteredSource → Type 0
Apart r q = (q.id ≢ r.id) × (is_at r.org_id r.bucket r.object_key q ≡ false)

abbrev pub Distinct : List RegisteredSource → Type 0
Distinct [] = Unit
Distinct (r ∷ rs) = All (Apart r) rs × Distinct rs

abbrev pub Below : ℕ → List RegisteredSource → Type 0
Below n = All (λ r. (0 < r.id) × (r.id < n))

pub record IsSound (reg : Registry) : Type 0 where
  pub started : 0 < reg.next_id
  pub below : Below reg.next_id reg.sources
  pub distinct : Distinct reg.sources

Below-suc : (n : ℕ) (rs : List RegisteredSource) → Below n rs → Below (n + 1) rs
Below-suc n [] h = tt
Below-suc n (r ∷ rs) h = ((h.0.0, omega arith), Below-suc n rs h.1)

pub All-lookup :
    (P : RegisteredSource → Type 0) (org : ℕ) (bucket key : Str) (rs : List RegisteredSource)
    (old : RegisteredSource)
    → All P rs
    → lookup_object org bucket key rs ≡ some old
    → P old
unfolding lookup_object
All-lookup P org bucket key [] old h e = cc e
All-lookup P org bucket key (r ∷ rs) old h e = elim (Bool-cases (is_at org bucket key r)) [
  | inl at ↦ let same : r ≡ old = ground arith in rw (← same) h.0
  | inr away ↦ All-lookup P org bucket key rs old h.1 (ground arith)
]

pub All-find :
    (P : RegisteredSource → Type 0) (org id : ℕ) (rs : List RegisteredSource)
    (src : RegisteredSource)
    → All P rs
    → find_source org id rs ≡ some src
    → P src
unfolding find_source
All-find P org id [] src h e = cc e
All-find P org id (r ∷ rs) src h e = elim (Bool-cases ((r.id == id) && (r.org_id == org))) [
  | inl at ↦ let same : r ≡ src = ground arith in rw (← same) h.0
  | inr away ↦ All-find P org id rs src h.1 (ground arith)
]

-- An update keeps ids and places.
refresh-Apart :
    (u : NewUpload) (r : RegisteredSource) (rs : List RegisteredSource)
    → All (Apart r) rs
    → All (Apart r) (refresh_at u rs)
unfolding refresh_at
refresh-Apart u r [] h = tt
refresh-Apart u r (q ∷ rs) h = (ground arith, refresh-Apart u r rs h.1)

refresh-Distinct :
    (u : NewUpload) (rs : List RegisteredSource) → Distinct rs → Distinct (refresh_at u rs)
unfolding refresh_at
refresh-Distinct u [] h = tt
refresh-Distinct u (r ∷ rs) h = elim (Bool-cases (is_at u.org u.bucket u.key r)) [
  | inl at ↦
      rw at (refresh-Apart u (refresh u r) rs (unfold refresh in h.0), refresh-Distinct u rs h.1)
  | inr away ↦ rw away (refresh-Apart u r rs h.0, refresh-Distinct u rs h.1)
]

refresh-Below :
    (n : ℕ) (u : NewUpload) (rs : List RegisteredSource) → Below n rs → Below n (refresh_at u rs)
unfolding refresh_at
refresh-Below n u [] h = tt
refresh-Below n u (r ∷ rs) h = (ground arith, refresh-Below n u rs h.1)

new-Apart :
    (n : ℕ) (u : NewUpload) (rs : List RegisteredSource)
    → Below n rs
    → lookup_object u.org u.bucket u.key rs ≡ none
    → All (Apart (new_source n u)) rs
unfolding new_source lookup_object
new-Apart n u [] h e = tt
new-Apart n u (r ∷ rs) h e = (ground arith, new-Apart n u rs h.1 (ground arith))

-- Registering an upload keeps ids and places apart, and ids below the sequence.
pub register_upload-IsSound :
    (u : NewUpload) (reg : Registry) → IsSound reg → IsSound (register_upload u reg).1
unfolding register_upload
register_upload-IsSound u reg s =
    elim (Option-cases (lookup_object u.org u.bucket u.key reg.sources)) [
      | inl e ↦
          rw (e, register_upload)
            (record {
              started = omega (arith, s.started);
              below = ((s.started, omega arith), Below-suc reg.next_id reg.sources s.below);
              distinct = (new-Apart reg.next_id u reg.sources s.below e, s.distinct);
            })
      | inr (old, e) ↦
          rw (e, register_upload)
            (record {
              started = omega (arith, s.started);
              below =
                  Below-suc reg.next_id (refresh_at u reg.sources)
                    (refresh-Below reg.next_id u reg.sources s.below);
              distinct = refresh-Distinct u reg.sources s.distinct;
            })
    ]

pub lookup-refresh :
    (u : NewUpload) (rs : List RegisteredSource) (old : RegisteredSource)
    → lookup_object u.org u.bucket u.key rs ≡ some old
    → lookup_object u.org u.bucket u.key (refresh_at u rs) ≡ some (refresh u old)
unfolding lookup_object refresh_at refresh
lookup-refresh u [] old e = cc e
lookup-refresh u (r ∷ rs) old e = ground (arith, lookup-refresh u rs old)

pub find-refresh :
    (u : NewUpload) (rs : List RegisteredSource) (old : RegisteredSource)
    → Distinct rs
    → lookup_object u.org u.bucket u.key rs ≡ some old
    → find_source u.org old.id (refresh_at u rs) ≡ some (refresh u old)
unfolding find_source refresh_at lookup_object refresh
find-refresh u [] old d e = cc e
find-refresh u (r ∷ rs) old d e = elim (Bool-cases (is_at u.org u.bucket u.key r)) [
  | inl at ↦ unfold is_at in ground arith
  | inr away ↦
      let found : lookup_object u.org u.bucket u.key rs ≡ some old = ground arith in
      let other = All-lookup (Apart r) u.org u.bucket u.key rs old d.0 found in
      ground (arith, find-refresh u rs old)
]

pub find-lookup :
    (org : ℕ) (bucket key : Str) (rs : List RegisteredSource) (src : RegisteredSource)
    → Distinct rs
    → lookup_object org bucket key rs ≡ some src
    → find_source org src.id rs ≡ some src
unfolding find_source lookup_object
find-lookup org bucket key [] src d e = cc e
find-lookup org bucket key (r ∷ rs) src d e = elim (Bool-cases (is_at org bucket key r)) [
  | inl at ↦ unfold is_at in ground arith
  | inr away ↦
      let found : lookup_object org bucket key rs ≡ some src = ground arith in
      let other = All-lookup (Apart r) org bucket key rs src d.0 found in
      ground (arith, find-lookup org bucket key rs src)
]

pub find_source-owned :
    (org id : ℕ) (rs : List RegisteredSource) (src : RegisteredSource)
    → find_source org id rs ≡ some src
    → (src.id ≡ id) × (src.org_id ≡ org)
unfolding find_source
find_source-owned org id [] src e = cc e
find_source-owned org id (r ∷ rs) src e = ground (arith, find_source-owned org id rs src)

pub lookup_object-owned :
    (org : ℕ) (bucket key : Str) (rs : List RegisteredSource) (src : RegisteredSource)
    → lookup_object org bucket key rs ≡ some src
    → src.org_id ≡ org
unfolding lookup_object
lookup_object-owned org bucket key [] src e = cc e
lookup_object-owned org bucket key (r ∷ rs) src e =
    unfold is_at in ground (arith, lookup_object-owned org bucket key rs src)
