-- ===== src/Schedules/Steps.antt =====
-- apps/api/src/routes/schedules.rs: the parts that its handlers share. Whether `cron` and `humantime`
-- parse a text are arguments.
use migration_platform.Prelude.{
  ℕ, ◌++◌, Bool, true, false, Option, none, some, List, [], ◌∷◌, any, ok, err, ensure, ok_or,
  map_err,
}
use migration_platform.Int.{ℤ, pos, negsuc}
use migration_platform.Text.{Str, lit, str_eq}
use migration_platform.Json.{Value}
use migration_platform.Api.{ApiError, ApiResult, not_found, bad_request, external}
use migration_platform.Jobs.Types.{BridgeError, bridge_text}
use migration_platform.Schedules.Spec.{normalise_spec}
use migration_platform.Schedules.World.{
  Schedule, BridgeCall, pause_call, unpause_call, World, Caller, call_bridge, find_schedule,
}

abbrev pub overlap_policies : List Str
overlap_policies =
    lit "skip" ∷ lit "buffer_one" ∷ lit "buffer_all" ∷ lit "cancel_other" ∷ lit "allow_all" ∷ []

unfoldable pub check_overlap : Str → ApiResult (Unit {0})
check_overlap overlap =
    ensure (any (λ p. str_eq p overlap) overlap_policies)
      (bad_request (lit "invalid overlap_policy " ++ overlap))

abbrev pub or_default : {A : Type 0} → A → Option A → A
or_default d none = d
or_default d (some a) = a

-- `max(0)`
abbrev pub at_least_zero : ℤ → ℕ
at_least_zero (pos n) = n
at_least_zero (negsuc n) = 0

abbrev pub temporal_failed : BridgeError → ApiError
temporal_failed e = external (lit "temporal: " ++ bridge_text e)

unfoldable pub get_schedule : ℕ → ℕ → World → ApiResult Schedule
get_schedule org id w = ok_or (find_schedule org id w.schedules) not_found

-- `temporal_id`: the id of the schedule in Temporal, if the organisation has it.
unfoldable pub temporal_id : ℕ → ℕ → World → ApiResult Str
temporal_id org id w = elim (find_schedule org id w.schedules) [
  | none ↦ err not_found
  | some s ↦ ok_or s.temporal_schedule_id not_found
]

-- A schedule without an id in Temporal is changed in the table only.
unfoldable pub tell_temporal :
    (BridgeError → ApiError)
    → Caller
    → (Str → BridgeCall)
    → Option Str
    → World
    → ApiResult (Unit {0}) × World
unfolding call_bridge
tell_temporal why c b none w = (ok tt, w)
tell_temporal why c b (some sid) w = call_bridge why c (b sid) w

abbrev pub switch_call : Bool → Str → BridgeCall
switch_call true sid = unpause_call sid
switch_call false sid = pause_call sid

abbrev pub with_enabled : Bool → Schedule → Schedule
with_enabled b s = record s { enabled = b }

module _ (cron_parses duration_parses : Str → Bool) where
  unfoldable pub checked_spec : Value → ApiResult Value
  unfolding normalise_spec
  checked_spec spec = map_err bad_request (normalise_spec cron_parses duration_parses spec)
