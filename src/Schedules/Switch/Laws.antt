-- ===== src/Schedules/Switch/Laws.antt =====
-- Pausing and resuming keep the table and Temporal in agreement.
use migration_platform.Prelude.{
  ℕ, ◌≡◌, ◌≢◌, ◌⊎◌, refl, ap, ◌∙◌, Has, ◌==◌, Bool-cases, inl, inr, Bool, true, false, some, List,
  [], ◌∷◌, ok, err, arith, Result-cases, Option-cases,
}
use migration_platform.Text.{Str, lit}
use migration_platform.Api.{ApiError, ApiResult, not_found}
use migration_platform.Jobs.Types.{operators, require_role}
use migration_platform.Schedules.World.{
  Schedule, BridgeCall, pause_call, unpause_call, MayBeLost, World, Caller, call_bridge,
  failed_call, record_audit, is_schedule, find_schedule, update_rows,
}
use migration_platform.Schedules.Steps.{temporal_id, switch_call, with_enabled}
use migration_platform.Schedules.Handler.{lift, change, ◌>>=◌, ◌>>◌}
use migration_platform.Schedules.Switch.{pause_schedule, resume_schedule}

-- Resuming for `true`, pausing for `false`.
abbrev pub switch : Bool → Caller → ℕ → World → ApiResult (Unit {0}) × World
switch true c id w = resume_schedule c id w
switch false c id w = pause_schedule c id w

-- A row with the id, of the organisation, is switched; any other row is as before.
abbrev pub SwitchedRow : Bool → ℕ → ℕ → Schedule → Schedule → Type 0
SwitchedRow b org id s s' =
    ((s.id ≡ id) × (s.org_id ≡ org) × (s' ≡ record s { enabled = b }))
    ⊎ (((s.id ≢ id) ⊎ (s.org_id ≢ org)) × (s' ≡ s))

abbrev pub SwitchedRows : Bool → ℕ → ℕ → List Schedule → List Schedule → Type 0
SwitchedRows b org id [] [] = Unit
SwitchedRows b org id [] (s' ∷ ss') = ⊥
SwitchedRows b org id (s ∷ ss) [] = ⊥
SwitchedRows b org id (s ∷ ss) (s' ∷ ss') = SwitchedRow b org id s s' × SwitchedRows b org id ss ss'

-- The call that switches the schedule with the id in Temporal.
abbrev pub told_to : Bool → Str → BridgeCall
told_to true sid = unpause_call sid
told_to false sid = pause_call sid

-- The organisation has the schedule, it is switched in the table and no other is, and the last call to
-- the bridge says so.
abbrev pub Switched : Bool → ℕ → ℕ → World → World → Type 0
Switched b org id w end =
    (sid : Str) × Has (λ s. (s.id ≡ id) × (s.org_id ≡ org) × (s.temporal_schedule_id ≡ some sid))
      w.schedules
    × SwitchedRows b org id w.schedules end.schedules
    × (end.done ≡ told_to b sid ∷ w.done)

abbrev pub Untouched : Caller → World → World → Type 0
Untouched c w end = (end.schedules ≡ w.schedules) × MayBeLost c w.done end.done

update-SwitchedRows :
    (b : Bool) (org id : ℕ) (ss : List Schedule)
    → SwitchedRows b org id ss (update_rows org id (with_enabled b) ss)
unfolding update_rows is_schedule
update-SwitchedRows b org id [] = tt
update-SwitchedRows b org id (s ∷ ss) = elim (Bool-cases (s.id == id)) [
  | inr other ↦ (inr (inl (λ e. ground arith), ground arith), update-SwitchedRows b org id ss)
  | inl same ↦ elim (Bool-cases (s.org_id == org)) [
    | inr foreign ↦ (inr (inr (λ e. ground arith), ground arith), update-SwitchedRows b org id ss)
    | inl own ↦ (inl (ground arith, ground arith, ground arith), update-SwitchedRows b org id ss)
  ]
]

find_schedule-Has :
    (org id : ℕ) (sid : Str) (ss : List Schedule) (s : Schedule)
    → find_schedule org id ss ≡ some s
    → s.temporal_schedule_id ≡ some sid
    → Has (λ s. (s.id ≡ id) × (s.org_id ≡ org) × (s.temporal_schedule_id ≡ some sid)) ss
unfolding find_schedule is_schedule
find_schedule-Has org id sid [] s e n = cc e
find_schedule-Has org id sid (t ∷ ss) s e n = elim (Bool-cases (is_schedule org id t)) [
  | inl at ↦
      let same : t ≡ s = ground arith in
      inl (ground arith, ground arith, ap (λ r. r.temporal_schedule_id) same ∙ n)
  | inr away ↦ inr (find_schedule-Has org id sid ss s (ground arith) n)
]

told_to-switch_call : (b : Bool) (sid : Str) → switch_call b sid ≡ told_to b sid
told_to-switch_call true sid = refl
told_to-switch_call false sid = refl

-- What a request to switch ends in.
abbrev pub Outcome : Bool → Caller → ℕ → World → ApiResult (Unit {0}) × World → Type 0
Outcome b c id w r =
    ((r.0 ≡ ok tt) × Switched b c.org id w r.1)
    ⊎ ((why : ApiError) × (r.0 ≡ err why) × Untouched c w r.1)

-- The part behind the checks of the role and of the license.
unfoldable switch_tail : Bool → Str → Caller → ℕ → World → ApiResult (Unit {0}) × World
switch_tail b action c id w =
    (do
      sid ← lift (temporal_id c.org id w)
      call_bridge failed_call c (switch_call b sid)
      change (λ w₁. record w₁ { schedules = update_rows c.org id (with_enabled b) w₁.schedules })
      record_audit c id action)
      w

refusal :
    (b : Bool) (c : Caller) (id : ℕ) (w : World) (r : ApiResult (Unit {0}) × World) (why : ApiError)
    → r ≡ (err why, w)
    → Outcome b c id w r
refusal b c id w r why e = rw e (inr (why, refl, (refl, inl refl)))

success :
    (b : Bool) (c : Caller) (id : ℕ) (w : World) (r : ApiResult (Unit {0}) × World) (s : Schedule)
    (sid : Str)
    → find_schedule c.org id w.schedules ≡ some s
    → s.temporal_schedule_id ≡ some sid
    → r.0 ≡ ok tt
    → r.1.schedules ≡ update_rows c.org id (with_enabled b) w.schedules
    → r.1.done ≡ switch_call b sid ∷ w.done
    → Outcome b c id w r
success b c id w r s sid found named e rows calls = inl (
  e,
  (
    sid,
    find_schedule-Has c.org id sid w.schedules s found named,
    rw rows (update-SwitchedRows b c.org id w.schedules),
    calls ∙ ap (λ k. k ∷ w.done) (told_to-switch_call b sid),
  ),
)

tail-Outcome :
    (b : Bool) (action : Str) (c : Caller) (id : ℕ) (w : World)
    → c.audit_answer ≡ ok tt
    → Outcome b c id w (switch_tail b action c id w)
unfolding switch_tail temporal_id call_bridge record_audit
tail-Outcome b action c id w a = elim (Option-cases (find_schedule c.org id w.schedules)) [
  | inl missing ↦ refusal b c id w (switch_tail b action c id w) not_found (ground arith)
  | inr (s, found) ↦ elim (Option-cases s.temporal_schedule_id) [
    | inl missing ↦ refusal b c id w (switch_tail b action c id w) not_found (ground arith)
    | inr (sid, named) ↦ elim (Result-cases (c.bridge (switch_call b sid))) [
      | inl (u, done) ↦
          success b c id w (switch_tail b action c id w) s sid found named (ground arith)
            (ground arith) (ground arith)
      | inr (why, failed) ↦ inr (
        failed_call why,
        ground arith,
        (
          ground arith,
          elim (Bool-cases (c.lost (switch_call b sid))) [
            | inl lost ↦ inr (switch_call b sid, lost, ground arith)
            | inr unsent ↦ inl (ground arith)
          ],
        ),
      )
    ]
  ]
]

-- If the audit log takes its entry: a request to pause or resume either is answered with success, and
-- then the row of the organisation with the id is switched, no other row is changed, and the last call
-- to Temporal is the one that switches that schedule, or it is refused, and then the table is as before
-- and Temporal has carried out no call, or one that was reported as failed.
pub switch-agrees :
    (b : Bool) (c : Caller) (id : ℕ) (w : World)
    → c.audit_answer ≡ ok tt
    → Outcome b c id w (switch b c id w)
unfolding switch_tail pause_schedule resume_schedule
switch-agrees false c id w a = elim (Result-cases (require_role c.role operators)) [
  | inl (u, may) ↦ rw may (tail-Outcome false (lit "pause") c id w a)
  | inr (why, not_allowed) ↦ refusal false c id w (pause_schedule c id w) why (rw not_allowed refl)
]
switch-agrees true c id w a = elim (Result-cases (require_role c.role operators)) [
  | inl (u, may) ↦ elim (Result-cases c.gate) [
    | inl (t, licensed) ↦ rw (may, licensed) (tail-Outcome true (lit "resume") c id w a)
    | inr (why, closed) ↦ refusal true c id w (resume_schedule c id w) why (rw (may, closed) refl)
  ]
  | inr (why, not_allowed) ↦ refusal true c id w (resume_schedule c id w) why (rw not_allowed refl)
]
