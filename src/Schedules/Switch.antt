-- ===== src/Schedules/Switch.antt =====
-- apps/api/src/routes/schedules.rs: deleting, pausing, resuming and triggering a schedule.
pub mod Laws
use migration_platform.Prelude.{
  ℕ, ◌+◌, ◌++◌, Bool, true, false, not, ◌&&◌, Option, none, some, is_some, List, [], ◌∷◌, any,
  Result, ok, err, ensure, ok_or, map_err, ◌==◌, if◌then◌else◌,
}
use migration_platform.Int.{ℤ, pos, negsuc}
use migration_platform.Text.{Str, lit, str_eq, decimal}
use migration_platform.Json.{Value, number, pos_int, object, Fields, end, field}
use migration_platform.Api.{
  ApiError, ApiResult, not_found, unauthorized, bad_request, conflict, external,
}
use migration_platform.Jobs.Types.{BridgeError, bridge_text, operators, require_role}
use migration_platform.Sources.Registry.{require_connector}
use migration_platform.Templates.Rows.{find_row}
use migration_platform.Templates.Table.{writers}
use migration_platform.Schedules.Handler.{lift, change, ◌>>=◌, ◌>>◌}
use migration_platform.Schedules.Spec.{normalise_spec}
use migration_platform.Schedules.World.{
  Schedule, BridgeCall, create_call, update_call, pause_call, unpause_call, delete_call,
  trigger_call, World, CreateSchedule, UpdateSchedule, Caller, call_bridge, failed_call,
  record_audit, is_schedule, find_schedule, update_rows, delete_rows, is_taken,
}
use migration_platform.Schedules.Steps.{
  overlap_policies, check_overlap, or_default, at_least_zero, temporal_failed, get_schedule,
  temporal_id, tell_temporal, switch_call, with_enabled, checked_spec,
}

-- `temporal_schedule_id` of the row, if there is one.
abbrev pub sid_of : Option Schedule → Option Str
sid_of none = none
sid_of (some s) = s.temporal_schedule_id

unfoldable pub delete_schedule : Caller → ℕ → World → ApiResult (Unit {0}) × World
unfolding tell_temporal delete_rows record_audit
delete_schedule c id w =
    (do
      lift (require_role c.role (lit "admin" ∷ []))
      tell_temporal failed_call c delete_call (sid_of (find_schedule c.org id w.schedules))
      λ w₁.
          if any (is_schedule c.org id) w₁.schedules
          then (ok tt, record w₁ { schedules = delete_rows (is_schedule c.org id) w₁.schedules })
          else (err not_found, w₁)
      record_audit c id (lit "delete"))
      w

unfoldable pub pause_schedule : Caller → ℕ → World → ApiResult (Unit {0}) × World
unfolding temporal_id call_bridge record_audit
pause_schedule c id w =
    (do
      lift (require_role c.role operators)
      sid ← lift (temporal_id c.org id w)
      call_bridge failed_call c (pause_call sid)
      change
          (λ w₁. record w₁ { schedules = update_rows c.org id (with_enabled false) w₁.schedules })
      record_audit c id (lit "pause"))
      w

unfoldable pub resume_schedule : Caller → ℕ → World → ApiResult (Unit {0}) × World
unfolding temporal_id call_bridge record_audit
resume_schedule c id w =
    (do
      lift (require_role c.role operators)
      lift c.gate
      sid ← lift (temporal_id c.org id w)
      call_bridge failed_call c (unpause_call sid)
      change (λ w₁. record w₁ { schedules = update_rows c.org id (with_enabled true) w₁.schedules })
      record_audit c id (lit "resume"))
      w

unfoldable pub trigger_schedule : Caller → ℕ → World → ApiResult (Unit {0}) × World
unfolding temporal_id call_bridge record_audit
trigger_schedule c id w =
    (do
      lift (require_role c.role operators)
      lift c.gate
      sid ← lift (temporal_id c.org id w)
      call_bridge failed_call c (trigger_call sid)
      record_audit c id (lit "trigger_now"))
      w
