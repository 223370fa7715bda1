-- ===== src/Schedules/Update.antt =====
-- apps/api/src/routes/schedules.rs: changing a schedule, in Temporal and then in the table.
use migration_platform.Prelude.{ℕ, Bool, Option, none, some, ok, err, if◌then◌else◌}
use migration_platform.Text.{Str, lit}
use migration_platform.Json.{Value, object, end}
use migration_platform.Api.{ApiResult}
use migration_platform.Jobs.Types.{require_role}
use migration_platform.Templates.Table.{writers}
use migration_platform.Schedules.Handler.{lift, change, ◌>>=◌, ◌>>◌}
use migration_platform.Schedules.World.{
  Schedule, update_call, World, UpdateSchedule, Caller, failed_call, record_audit, update_rows,
}
use migration_platform.Schedules.Steps.{
  check_overlap, or_default, at_least_zero, temporal_failed, get_schedule, tell_temporal,
  switch_call, checked_spec,
}

-- `if let Some(enabled) = req.enabled`
unfoldable pub update_enabled : Caller → Option Bool → Schedule → World → ApiResult Schedule × World
unfolding tell_temporal
update_enabled c none s = lift (ok s)
update_enabled c (some b) s = do
  tell_temporal failed_call c (switch_call b) s.temporal_schedule_id
  lift (ok (record s { enabled = b }))

-- The other fields, the overlap policy last.
unfoldable pub update_fields : UpdateSchedule → Schedule → ApiResult Schedule
unfolding check_overlap
update_fields req s =
    let t = record s {
      catchup_window_seconds = elim req.catchup_window_seconds [
        | none ↦ s.catchup_window_seconds
        | some n ↦ at_least_zero n
      ];
      timezone = or_default s.timezone req.timezone;
    } in
    elim req.overlap_policy [
      | none ↦ ok t
      | some overlap ↦ elim (check_overlap overlap) [
        | ok u ↦ ok (record t { overlap_policy = overlap })
        | err e ↦ err e
      ]
    ]

-- UPDATE schedules SET …
abbrev pub stored : Schedule → Schedule → Schedule
stored t s = record s {
  spec_json = t.spec_json;
  timezone = t.timezone;
  overlap_policy = t.overlap_policy;
  catchup_window_seconds = t.catchup_window_seconds;
  enabled = t.enabled;
}

abbrev pub may_enable : Caller → Option Bool → ApiResult (Unit {0})
may_enable c none = ok tt
may_enable c (some b) = if b then c.gate else ok tt

module _ (cron_parses duration_parses : Str → Bool) where
  -- `if let Some(spec) = req.spec`
  unfoldable pub update_spec : Caller → Option Value → Schedule → World → ApiResult Schedule × World
  unfolding checked_spec tell_temporal
  update_spec c none s = lift (ok s)
  update_spec c (some spec) s = do
    normalised ← lift (checked_spec cron_parses duration_parses spec)
    tell_temporal temporal_failed c (λ sid. update_call sid normalised (object end))
        s.temporal_schedule_id
    lift (ok (record s { spec_json = normalised }))

  unfoldable pub update_schedule : Caller → ℕ → UpdateSchedule → World → ApiResult Schedule × World
  unfolding update_spec update_enabled update_fields record_audit
  update_schedule c id req w =
      (do
        lift (require_role c.role writers)
        lift (may_enable c req.enabled)
        old ← lift (get_schedule c.org id w)
        with_spec ← update_spec c req.spec old
        switched ← update_enabled c req.enabled with_spec
        t ← lift (update_fields req switched)
        change (λ w₁. record w₁ { schedules = update_rows c.org id (stored t) w₁.schedules })
        record_audit c id (lit "update")
        lift (ok t))
        w
