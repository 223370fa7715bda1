-- ===== src/Tests/Schedules.antt =====
-- Schedules at concrete inputs: one schedule of an organisation, and a bridge that carries out
-- everything.
use migration_platform.Prelude.{
  ℕ, ◌≡◌, ◌⊎◌, refl, Bool, true, false, none, some, [], ◌∷◌, Result, ok, err, arith,
}
use migration_platform.Text.{Str, lit}
use migration_platform.Json.{Value, null, string, object, end, field}
use migration_platform.Api.{ApiResult, license_required}
use migration_platform.Jobs.Types.{BridgeError}
use migration_platform.Templates.Rows.{TemplateRow}
use migration_platform.Schedules.World.{
  Schedule, BridgeCall, World, CreateSchedule, UpdateSchedule, Caller,
}
use migration_platform.Schedules.Create.{create_schedule}
use migration_platform.Schedules.Create.Laws.{Created, NotCreated, create_schedule-atomic}
use migration_platform.Schedules.Update.{update_schedule}
use migration_platform.Schedules.Switch.{resume_schedule, trigger_schedule}
use migration_platform.Schedules.Switch.Laws.{Outcome, switch, switch-agrees}
use migration_platform.Schedules.License.{Refused, unlicensed-Refused}

abbrev parses : Str → Bool
parses s = true

abbrev obey : BridgeCall → Result BridgeError (Unit {0})
obey b = ok tt

abbrev nightly : Value
nightly = object (field (lit "cron") (string (lit "0 2 * * *")) end)

abbrev hourly : Value
hourly = object (field (lit "every") (string (lit "1h")) end)

abbrev row : Schedule
row = record {
  id = 1;
  org_id = 7;
  name = lit "nightly";
  rule_template_id = 5;
  rule_template_version = 1;
  connector_id = 4;
  spec_json = nightly;
  timezone = lit "UTC";
  overlap_policy = lit "skip";
  catchup_window_seconds = 3600;
  enabled = true;
  temporal_schedule_id = some (lit "sch-7-a");
  created_by = 3;
}

abbrev template : TemplateRow
template = record {
  id = 5;
  org_id = 7;
  template_key = lit "k";
  version = 1;
  name = lit "n";
  schema_json = null;
  published = true;
  created_by = 3;
}

abbrev world : World
world = record {
  schedules = row ∷ [];
  next_id = 2;
  audit = [];
  done = [];
  registry = record {
    sources = [];
    connectors = record { id = 4; org_id = 7; kind = lit "salesforce" } ∷ [];
    next_id = 1;
  };
  templates = template ∷ [];
}

abbrev caller : ApiResult (Unit {0}) → Caller
caller gate = record {
  org = 7;
  role = lit "editor";
  sub = lit "3";
  user = some 3;
  gate = gate;
  uuid = lit "b";
  bridge = obey;
  lost = λ b. false;
  takes_back = true;
  audit_answer = ok tt;
}

abbrev creation : CreateSchedule
creation = record {
  name = lit "hourly";
  rule_template_id = 5;
  rule_template_version = 1;
  connector_id = 4;
  spec = hourly;
  timezone = none;
  overlap_policy = none;
  catchup_window_seconds = none;
  enabled = some false;
}

switch-agrees_example :
    Outcome false (caller (ok tt)) 1 world (switch false (caller (ok tt)) 1 world)
switch-agrees_example = switch-agrees false (caller (ok tt)) 1 world refl

create_schedule-atomic_example :
    Created
      (caller (ok tt))
      creation
      world
      (create_schedule parses parses (caller (ok tt)) creation world)
    ⊎ NotCreated
        (caller (ok tt))
        world
        (create_schedule parses parses (caller (ok tt)) creation world)
create_schedule-atomic_example =
    create_schedule-atomic parses parses (caller (ok tt)) creation world refl refl (omega arith, tt)

unlicensed-Refused_example :
    ((req : CreateSchedule)
      → Refused world
          (create_schedule parses parses (caller (err (license_required []))) req world))
    × ((id : ℕ) → Refused world (resume_schedule (caller (err (license_required []))) id world))
    × ((id : ℕ) → Refused world (trigger_schedule (caller (err (license_required []))) id world))
    × ((id : ℕ) (req : UpdateSchedule)
        → req.enabled ≡ some true
        → Refused world
            (update_schedule parses parses (caller (err (license_required []))) id req world))
unlicensed-Refused_example =
    unlicensed-Refused parses parses (caller (err (license_required []))) (license_required [])
      world refl
