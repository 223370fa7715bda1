-- ===== src/Jobs/Settled.antt =====
-- A job that has ended is as it ended: what holds of the tables of jobs before and after.
use mathlib.Core.Path.{subst}
use migration_platform.Prelude.{
  sym, if◌then◌else◌, ◌≡◌, refl, Bool, true, false, List, [], ◌∷◌, All, All-map, Has, Has-map,
  Bool-cases, inl, inr, arith,
}
use migration_platform.Text.{str_eq}
use migration_platform.Jobs.Types.{
  JobStatus, pending, running, paused, succeeded, failed, cancelled, status_text, Job, update_jobs,
}
use migration_platform.Jobs.Actions.{pausable, resumable, cancellable, is_one_of}

abbrev pub is_finished : JobStatus → Bool
is_finished pending = false
is_finished running = false
is_finished paused = false
is_finished succeeded = true
is_finished failed = true
is_finished cancelled = true

-- The same job, which is as it ended, if it had ended.
abbrev pub Follows : Job → Job → Type 0
Follows j j' =
    (j'.id ≡ j.id)
    × (j'.org_id ≡ j.org_id)
    × (is_finished j.status ≡ true
        → (j'.status ≡ j.status) × (j'.finished_at ≡ j.finished_at) × (j'.totals ≡ j.totals))

-- Each job of the first table is in the second, settled; there, others may have come.
abbrev pub Settled : List Job → List Job → Type 0
Settled js js' = All (λ j. Has (Follows j) js') js

pub Settled-grow : (j : Job) (js js' : List Job) → Settled js js' → Settled js (j ∷ js')
Settled-grow j js js' h = All-map (λ k found. inr found) js h

Follows-refl : (j : Job) → Follows j j
Follows-refl j = (refl, refl, λ h. (refl, refl, refl))

pub Settled-refl : (js : List Job) → Settled js js
Settled-refl [] = tt
Settled-refl (j ∷ js) = (inl (Follows-refl j), Settled-grow j js js (Settled-refl js))

Follows-trans : (x y z : Job) → Follows x y → Follows y z → Follows x z
Follows-trans x y z p q = ground (arith, p, q)

follow_on : (x : Job) (b c : List Job) → Has (Follows x) b → Settled b c → Has (Follows x) c
follow_on x [] c h q = absurd h
follow_on x (y ∷ b) c (inl p) q = Has-map (λ z r. Follows-trans x y z p r) c q.0
follow_on x (y ∷ b) c (inr h) q = follow_on x b c h q.1

pub Settled-trans : (a b c : List Job) → Settled a b → Settled b c → Settled a c
Settled-trans a b c p q = All-map (λ x h. follow_on x b c h q) a p

update_jobs-cons :
    (p : Job → Bool) (f : Job → Job) (j : Job) (js : List Job)
    → update_jobs p f (j ∷ js) ≡ (if p j then f j else j) ∷ update_jobs p f js
unfolding update_jobs
update_jobs-cons p f j js = refl

kept_or_changed :
    (p : Job → Bool) (f : Job → Job)
    → ((j : Job) → p j ≡ true → Follows j (f j))
    → (j : Job) → Follows j (if p j then f j else j)
kept_or_changed p f h j = elim (Bool-cases (p j)) [
  | inl at ↦ rw at (h j at)
  | inr away ↦ rw away (Follows-refl j)
]

pub update-Settled :
    (p : Job → Bool) (f : Job → Job)
    → ((j : Job) → p j ≡ true → Follows j (f j))
    → (js : List Job) → Settled js (update_jobs p f js)
update-Settled p f h [] = tt
update-Settled p f h (j ∷ js) =
    let j' = if p j then f j else j in
    let js' = update_jobs p f js in
    let settled : Settled (j ∷ js) (j' ∷ js') =
      (inl (kept_or_changed p f h j), Settled-grow j' js js' (update-Settled p f h js)) in
    subst (Settled (j ∷ js)) (sym (update_jobs-cons p f j js)) settled

-- The conditions of the updates name no status of a finished job.
pub unfinished : (s : JobStatus) → is_one_of cancellable s ≡ true → is_finished s ≡ false
unfolding is_one_of status_text str_eq
unfinished pending h = refl
unfinished running h = refl
unfinished paused h = refl
unfinished succeeded h = cc h
unfinished failed h = cc h
unfinished cancelled h = cc h

pub from_pausable : (s : JobStatus) → is_one_of pausable s ≡ true → is_finished s ≡ false
unfolding is_one_of status_text str_eq
from_pausable pending h = refl
from_pausable running h = refl
from_pausable paused h = refl
from_pausable succeeded h = cc h
from_pausable failed h = cc h
from_pausable cancelled h = cc h

pub from_resumable : (s : JobStatus) → is_one_of resumable s ≡ true → is_finished s ≡ false
unfolding is_one_of status_text str_eq
from_resumable pending h = refl
from_resumable running h = refl
from_resumable paused h = refl
from_resumable succeeded h = cc h
from_resumable failed h = cc h
from_resumable cancelled h = cc h

pub from_pending : (s : JobStatus) → is_one_of (pending ∷ []) s ≡ true → is_finished s ≡ false
unfolding is_one_of status_text str_eq
from_pending pending h = refl
from_pending running h = refl
from_pending paused h = refl
from_pending succeeded h = cc h
from_pending failed h = cc h
from_pending cancelled h = cc h
