-- ===== src/Vendor/Guards/Limiter.antt =====
-- The rate limiter.
use migration_platform.Prelude.{ap, ◌∙◌}
use migration_platform.Prelude.{leb, sym}
use mathlib.Core.Path.{subst}
use migration_platform.Vendor.Guards.{open_window}
use migration_platform.Prelude.{Option-cases}
use migration_platform.Prelude.{is_ok, All}
use migration_platform.Prelude.{
  ℕ, ◌+◌, ◌≤◌, ◌<◌, ◌≡◌, ◌⊎◌, refl, List, [], ◌∷◌, Option, none, some, ok, err, arith, Bool-cases,
  inl, inr, if◌then◌else◌,
}
use migration_platform.Text.{Str, str_eq, str_eq_iff, str_eq_refl}
use migration_platform.Time.{Instant, seconds}
use migration_platform.Vendor.Types.{ServerState}
use migration_platform.Vendor.Guards.{
  last_seen, mark_seen, retain_recent, limit_fingerprint, rate_limit, slow_down,
}

-- The limiter writes none of the tables.
pub rate_limit-tables :
    (now : Instant) (fp : Str) (s : ServerState)
    → ((rate_limit now fp s).1.trials ≡ s.trials)
      × ((rate_limit now fp s).1.revocations ≡ s.revocations)
unfolding rate_limit
rate_limit-tables now fp s = ground arith

pub last_seen-mark_seen :
    (fp k : Str) (now : Instant) (m : List (Str × Instant))
    → last_seen k (mark_seen fp now m) ≡ (if str_eq fp k then some now else last_seen k m)
unfolding last_seen mark_seen
last_seen-mark_seen fp k now [] = refl
last_seen-mark_seen fp k now ((j, t) ∷ m) =
    ground (arith, str_eq_iff j fp, str_eq_iff j k, str_eq_iff fp k, last_seen-mark_seen fp k now m)

-- An entry of the last 300 seconds is not pruned.
last_seen-retain_recent :
    (k : Str) (now t : Instant) (m : List (Str × Instant))
    → last_seen k m ≡ some t
    → now < t + seconds 300
    → last_seen k (retain_recent now m) ≡ some t
unfolding last_seen retain_recent
last_seen-retain_recent k now t [] h recent = cc
last_seen-retain_recent k now t ((j, u) ∷ m) h recent =
    ground (arith, last_seen-retain_recent k now t m)

-- A request: its instant, and the fingerprint.
abbrev pub Request : Type 0
Request = Instant × Str

pub after : List Request → ServerState → ServerState
after [] s = s
after ((t, fp) ∷ rest) s = after rest (rate_limit t fp s).1

pub accepted : List Request → ServerState → ℕ
accepted [] s = 0
accepted ((t, fp) ∷ rest) s =
    let more = accepted rest (rate_limit t fp s).1 in
    if is_ok (rate_limit t fp s).0 then more + 1 else more

-- Every request comes at `from` or later, and before `until`.
abbrev pub Within : Instant → Instant → List Request → Type 0
Within from until = All (λ r. (from ≤ r.0) × (r.0 < until))

abbrev SeenAt : Option Instant → Instant → Type 0
SeenAt none t = ⊥
SeenAt (some u) t = t ≤ u

-- The fingerprint was seen at `t` or later.
abbrev Seen : Str → Instant → List (Str × Instant) → Type 0
Seen fp t m = SeenAt (last_seen fp m) t

mark_seen-Seen :
    (fp k : Str) (t now : Instant) (m : List (Str × Instant))
    → t ≤ now
    → Seen fp t m
    → Seen fp t (mark_seen k now m)
mark_seen-Seen fp k t now m le h = rw (last_seen-mark_seen, SeenAt) (ground arith)

retain_recent-Seen :
    (fp : Str) (t now : Instant) (m : List (Str × Instant))
    → now < t + seconds 5
    → Seen fp t m
    → Seen fp t (retain_recent now m)
retain_recent-Seen fp t now m before h = elim (Option-cases (last_seen fp m)) [
  | inl e ↦ absurd (rw e at h)
  | inr (u, e) ↦
      let le : t ≤ u = rw e at h in rw (last_seen-retain_recent fp now u m e (omega arith)) le
]

limit_fingerprint-Seen :
    (now t : Instant) (fp k : Str) (s : ServerState)
    → t ≤ now
    → now < t + seconds 5
    → Seen fp t s.per_fingerprint
    → Seen fp t (limit_fingerprint now k s).1.per_fingerprint
unfolding limit_fingerprint
limit_fingerprint-Seen now t fp k s from before h =
    let marked = mark_seen-Seen fp k t now s.per_fingerprint from h in
    ground
      (arith, marked, retain_recent-Seen fp t now (mark_seen k now s.per_fingerprint) before marked)

-- The limiter refuses, or it is the limiter on the fingerprint alone; the map is as before.
rate_limit-refuses :
    (now : Instant) (fp : Str) (s : ServerState)
    → (((rate_limit now fp s).0 ≡ err slow_down)
        × ((rate_limit now fp s).1.per_fingerprint ≡ s.per_fingerprint))
      ⊎ ((s' : ServerState) × (s'.per_fingerprint ≡ s.per_fingerprint)
          × (rate_limit now fp s ≡ limit_fingerprint now fp s'))
unfolding rate_limit
rate_limit-refuses now fp s =
    let s₁ = open_window now s in
    elim (Bool-cases (leb 20 s₁.window_count)) [
      | inl full ↦ inl (ground (arith, full))
      | inr room ↦
          inr (record s₁ { window_count = s₁.window_count + 1 }, ground (arith, room), rw room)
    ]

limit_fingerprint-ok :
    (now : Instant) (fp : Str) (s : ServerState)
    → (limit_fingerprint now fp s).0 ≡ ok tt
    → Seen fp now (limit_fingerprint now fp s).1.per_fingerprint
unfolding limit_fingerprint
limit_fingerprint-ok now fp s h =
    let marked : last_seen fp (mark_seen fp now s.per_fingerprint) ≡ some now =
      last_seen-mark_seen fp fp now s.per_fingerprint ∙ rw (str_eq_refl fp) in
    ground (
      arith,
      marked,
      last_seen-retain_recent fp now now (mark_seen fp now s.per_fingerprint) marked,
    )

limit_fingerprint-soon :
    (t now : Instant) (fp : Str) (s : ServerState)
    → now < t + seconds 5
    → Seen fp t s.per_fingerprint
    → (limit_fingerprint now fp s).0 ≡ err slow_down
unfolding limit_fingerprint
limit_fingerprint-soon t now fp s before h = ground arith

rate_limit-Seen :
    (now t : Instant) (fp k : Str) (s : ServerState)
    → t ≤ now
    → now < t + seconds 5
    → Seen fp t s.per_fingerprint
    → Seen fp t (rate_limit now k s).1.per_fingerprint
rate_limit-Seen now t fp k s from before h = elim (rate_limit-refuses now k s) [
  | inl (refused, same) ↦ subst (Seen fp t) (sym same) h
  | inr (s', same, e) ↦
      rw e (limit_fingerprint-Seen now t fp k s' from before (subst (Seen fp t) (sym same) h))
]

after-Seen :
    (t : Instant) (fp : Str) (reqs : List Request) (s : ServerState)
    → Within t (t + seconds 5) reqs
    → Seen fp t s.per_fingerprint
    → Seen fp t (after reqs s).per_fingerprint
unfolding after
after-Seen t fp [] s w h = h
after-Seen t fp ((now, k) ∷ rest) s w h =
    after-Seen t fp rest (rate_limit now k s).1 w.1 (rate_limit-Seen now t fp k s w.0.0 w.0.1 h)

accepted-Seen :
    (t : Instant) (fp : Str) (s : ServerState)
    → (rate_limit t fp s).0 ≡ ok tt
    → Seen fp t (rate_limit t fp s).1.per_fingerprint
accepted-Seen t fp s h = elim (rate_limit-refuses t fp s) [
  | inl (refused, same) ↦ cc (refused, h)
  | inr (s', same, e) ↦ rw e (limit_fingerprint-ok t fp s' (ap (λ r. r.0) (sym e) ∙ h))
]

too_soon-refused :
    (t now : Instant) (fp : Str) (s : ServerState)
    → now < t + seconds 5
    → Seen fp t s.per_fingerprint
    → (rate_limit now fp s).0 ≡ err slow_down
too_soon-refused t now fp s before h = elim (rate_limit-refuses now fp s) [
  | inl (refused, same) ↦ refused
  | inr (s', same, e) ↦
      rw e (limit_fingerprint-soon t now fp s' before (subst (Seen fp t) (sym same) h))
]

-- Once a request of an install has passed the limiter, the next one from it passes only five
-- seconds later, whatever other requests come in between.
pub rate_limit_spacing :
    (t now : Instant) (fp : Str) (reqs : List Request) (s : ServerState)
    → (rate_limit t fp s).0 ≡ ok tt
    → Within t (t + seconds 5) reqs
    → now < t + seconds 5
    → (rate_limit now fp (after reqs (rate_limit t fp s).1)).0 ≡ err slow_down
rate_limit_spacing t now fp reqs s passed between before =
    too_soon-refused t now fp (after reqs (rate_limit t fp s).1) before
      (after-Seen t fp reqs (rate_limit t fp s).1 between (accepted-Seen t fp s passed))

rate_limit-window :
    (now : Instant) (fp : Str) (s : ServerState)
    → now < s.window_start + seconds 1
    → let (r, s') = rate_limit now fp s in
      (s'.window_start ≡ s.window_start)
      × (s.window_count ≤ s'.window_count)
      × (s'.window_count ≤ s.window_count + 1)
      × (s.window_count ≤ 20 → s'.window_count ≤ 20)
      × (r ≡ ok tt → s'.window_count ≡ s.window_count + 1)
unfolding rate_limit
rate_limit-window now fp s before = ground arith

-- Within one window of a second no more than twenty requests pass, those before it included.
pub rate_limit_window :
    (from : Instant) (reqs : List Request) (s : ServerState)
    → s.window_count ≤ 20
    → Within from (s.window_start + seconds 1) reqs
    → accepted reqs s + s.window_count ≤ 20
unfolding accepted
rate_limit_window from [] s h w = omega arith
rate_limit_window from ((now, fp) ∷ rest) s h w =
    let step = rate_limit-window now fp s w.0.1 in
    let s' = (rate_limit now fp s).1 in
    let room : s'.window_count ≤ 20 = ground (arith, step) in
    let later : Within from (s'.window_start + seconds 1) rest =
      subst (λ t. Within from (t + seconds 1) rest) (sym step.0) w.1 in
    ground (arith, step, rate_limit_window from rest s' room later)
