-- ===== src/Schedules/Create.antt =====
-- apps/api/src/routes/schedules.rs: creating a schedule, in the table and then in Temporal.
pub mod Laws
use migration_platform.Prelude.{
  ℕ, ◌+◌, ◌++◌, Bool, true, false, not, ◌&&◌, Option, none, some, is_some, List, [], ◌∷◌, any,
  Result, ok, err, ensure, ok_or, map_err, ◌==◌, if◌then◌else◌,
}
use migration_platform.Int.{ℤ, pos, negsuc}
use migration_platform.Text.{Str, lit, str_eq, decimal}
use migration_platform.Json.{Value, number, pos_int, object, Fields, end, field}
use migration_platform.Api.{
  ApiError, ApiResult, not_found, unauthorized, bad_request, conflict, external,
}
use migration_platform.Jobs.Types.{BridgeError, bridge_text, operators, require_role}
use migration_platform.Sources.Registry.{require_connector}
use migration_platform.Templates.Rows.{find_row}
use migration_platform.Templates.Table.{writers}
use migration_platform.Schedules.Handler.{lift, change, ◌>>=◌, ◌>>◌}
use migration_platform.Schedules.Spec.{normalise_spec}
use migration_platform.Schedules.World.{
  Schedule, BridgeCall, create_call, update_call, pause_call, unpause_call, delete_call,
  trigger_call, World, CreateSchedule, UpdateSchedule, Caller, call_bridge, failed_call,
  record_audit, is_schedule, find_schedule, update_rows, delete_rows, is_taken,
}
use migration_platform.Schedules.Steps.{
  overlap_policies, check_overlap, or_default, at_least_zero, temporal_failed, get_schedule,
  temporal_id, tell_temporal, switch_call, with_enabled, checked_spec,
}

unfoldable pub workflow_input : Caller → CreateSchedule → ℕ → Value
workflow_input c req id = object (
    field (lit "orgId") (number (pos_int c.org)) (
      field (lit "scheduleId") (number (pos_int id)) (
        field (lit "ruleTemplateId") (number (pos_int req.rule_template_id)) (
          field (lit "ruleTemplateVersion") (number (pos_int req.rule_template_version))
            (field (lit "connectorId") (number (pos_int req.connector_id)) end)))))

unfoldable pub new_schedule : Caller → CreateSchedule → Value → Str → ℕ → ℕ → Schedule
new_schedule c req spec sid user id = record {
  id = id;
  org_id = c.org;
  name = req.name;
  rule_template_id = req.rule_template_id;
  rule_template_version = req.rule_template_version;
  connector_id = req.connector_id;
  spec_json = spec;
  timezone = or_default (lit "UTC") req.timezone;
  overlap_policy = or_default (lit "skip") req.overlap_policy;
  catchup_window_seconds = at_least_zero (or_default (pos 3600) req.catchup_window_seconds);
  enabled = or_default true req.enabled;
  temporal_schedule_id = some sid;
  created_by = user;
}

-- INSERT INTO schedules …: the sequence moves on in either case.
unfoldable pub insert_schedule : Caller → Schedule → World → ApiResult (Unit {0}) × World
unfolding is_taken
insert_schedule c s w =
    let moved = record w { next_id = w.next_id + 1 } in
    if any (is_taken s.org_id s.name (or_default [] s.temporal_schedule_id)) w.schedules
    then (err (conflict (lit "schedule " ++ (s.name ++ lit " already exists"))), moved)
    else (ok tt, record moved { schedules = s ∷ w.schedules })

-- The row is taken back if Temporal refuses it: `let _ = …`, an error of the DELETE is not looked at.
unfoldable pub or_roll_back :
    Caller → ℕ → ApiResult (Unit {0}) × World → ApiResult (Unit {0}) × World
unfolding delete_rows
or_roll_back c id (ok u, w) = (ok u, w)
or_roll_back c id (err e, w) = (
  err e,
  if c.takes_back then record w { schedules = delete_rows (λ s. s.id == id) w.schedules } else w,
)

-- `let _ = …pause_schedule(…)`: its answer is not looked at.
unfoldable pub pause_if_disabled : Caller → Schedule → Str → World → ApiResult (Unit {0}) × World
unfolding call_bridge
pause_if_disabled c s sid w =
    if s.enabled then (ok tt, w) else (ok tt, (call_bridge failed_call c (pause_call sid) w).1)

-- The row first, since the call to Temporal carries its id.
unfoldable pub store_schedule :
    Caller → CreateSchedule → Value → Str → Schedule → World → ApiResult Schedule × World
unfolding insert_schedule or_roll_back pause_if_disabled record_audit workflow_input
store_schedule c req spec sid row = do
  insert_schedule c row
  λ w₁. or_roll_back c row.id (
      call_bridge temporal_failed c
        (create_call sid spec (workflow_input c req row.id) row.overlap_policy
          row.catchup_window_seconds row.timezone)
        w₁)
  pause_if_disabled c row sid
  record_audit c row.id (lit "create")
  lift (ok row)

unfoldable pub new_sid : Caller → Str
new_sid c = lit "sch-" ++ (decimal c.org ++ (lit "-" ++ c.uuid))

module _ (cron_parses duration_parses : Str → Bool) where
  unfoldable pub create_schedule : Caller → CreateSchedule → World → ApiResult Schedule × World
  unfolding checked_spec check_overlap store_schedule new_sid new_schedule
  create_schedule c req w =
      (do
        lift (require_role c.role writers)
        lift c.gate
        spec ← lift (checked_spec cron_parses duration_parses req.spec)
        lift (check_overlap (or_default (lit "skip") req.overlap_policy))
        kind ← lift (require_connector c.org req.connector_id w.registry)
        lift (
            ensure (is_some (find_row c.org req.rule_template_id w.templates))
              (bad_request (lit "template not found")))
        user ← lift (ok_or c.user unauthorized)
        store_schedule c req spec (new_sid c) (new_schedule c req spec (new_sid c) user w.next_id))
        w
