-- ===== src/Schedules/License.antt =====
-- Nothing that makes a schedule run gets past a closed license gate.
use migration_platform.Prelude.{ℕ, ◌≡◌, Bool, true, some, err, arith, Result-cases, inl, inr}
use migration_platform.Text.{Str}
use migration_platform.Api.{ApiError, ApiResult}
use migration_platform.Jobs.Types.{operators, require_role}
use migration_platform.Templates.Table.{writers}
use migration_platform.Schedules.World.{World, CreateSchedule, UpdateSchedule, Caller}
use migration_platform.Schedules.Create.{create_schedule}
use migration_platform.Schedules.Update.{update_schedule}
use migration_platform.Schedules.Switch.{resume_schedule, trigger_schedule}

-- The call is refused and nothing has changed.
abbrev pub Refused : {A : Type 0} → World → ApiResult A × World → Type 0
Refused w r = (why : ApiError) × (r ≡ (err why, w))

module _ (cron_parses duration_parses : Str → Bool) where
  -- While the gate of the license is closed, creating, resuming and triggering a schedule, and an
  -- update that enables one, are refused without any effect on the tables or on Temporal.
  pub unlicensed-Refused :
      (c : Caller) (why : ApiError) (w : World)
      → c.gate ≡ err why
      → ((req : CreateSchedule) → Refused w (create_schedule cron_parses duration_parses c req w))
        × ((id : ℕ) → Refused w (resume_schedule c id w))
        × ((id : ℕ) → Refused w (trigger_schedule c id w))
        × ((id : ℕ) (req : UpdateSchedule)
            → req.enabled ≡ some true
            → Refused w (update_schedule cron_parses duration_parses c id req w))
  unfolding create_schedule resume_schedule trigger_schedule update_schedule
  unlicensed-Refused c why w g =
      let as_writer = Result-cases (require_role c.role writers) in
      let as_operator = Result-cases (require_role c.role operators) in
      (
        (λ req. elim as_writer [
          | inl (u, may) ↦ (why, ground arith)
          | inr (no_role, other) ↦ (no_role, ground arith)
        ]),
        (λ id. elim as_operator [
          | inl (u, may) ↦ (why, ground arith)
          | inr (no_role, other) ↦ (no_role, ground arith)
        ]),
        (λ id. elim as_operator [
          | inl (u, may) ↦ (why, ground arith)
          | inr (no_role, other) ↦ (no_role, ground arith)
        ]),
        (λ id req e. elim as_writer [
          | inl (u, may) ↦ (why, ground arith)
          | inr (no_role, other) ↦ (no_role, ground arith)
        ]),
      )
