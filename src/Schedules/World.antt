-- ===== src/Schedules/World.antt =====
-- apps/api/src/routes/schedules.rs, ScheduleRow of apps/api/src/db.rs, the table of
-- apps/api/migrations/0001_init.sql, and the schedule calls of apps/api/src/temporal.rs: the state of
-- the handlers. The times of a row and the JSON that an audit entry keeps are left out.
use migration_platform.Prelude.{
  ℕ, ◌≡◌, ◌⊎◌, Bool, true, false, ◌&&◌, ◌||◌, Option, none, some, List, [], ◌∷◌, Result, ok, err,
  ◌==◌, if◌then◌else◌,
}
use migration_platform.Int.{ℤ}
use migration_platform.Text.{Str, lit, str_eq, decimal}
use migration_platform.Json.{Value, Fields}
use migration_platform.Api.{ApiError, ApiResult, external}
use migration_platform.Jobs.Types.{BridgeError, bridge_text}
use migration_platform.Sources.Types.{Registry}
use migration_platform.Templates.Rows.{TemplateRow}
use migration_platform.Templates.Table.{AuditEntry}
use migration_platform.Schedules.Spec.{create_body, update_body, name_body}

pub record Schedule : Type 0 where
  pub id : ℕ
  pub org_id : ℕ
  pub name : Str
  pub rule_template_id : ℕ
  pub rule_template_version : ℕ
  pub connector_id : ℕ
  pub spec_json : Value
  pub timezone : Str
  pub overlap_policy : Str
  pub catchup_window_seconds : ℕ
  pub enabled : Bool
  pub temporal_schedule_id : Option Str
  pub created_by : ℕ

-- A call of the bridge, with the id of the schedule.
pub data BridgeCall : Type 0 where
  create_call : Str → Value → Value → Str → ℕ → Str → BridgeCall
  update_call : Str → Value → Value → BridgeCall
  pause_call unpause_call delete_call trigger_call : Str → BridgeCall

-- The path and the body that the client posts.
unfoldable pub path_of : BridgeCall → Str
path_of (create_call id spec input overlap catchup timezone) = lit "/v1/schedules/create"
path_of (update_call id spec input) = lit "/v1/schedules/update"
path_of (pause_call id) = lit "/v1/schedules/pause"
path_of (unpause_call id) = lit "/v1/schedules/unpause"
path_of (delete_call id) = lit "/v1/schedules/delete"
path_of (trigger_call id) = lit "/v1/schedules/trigger"

unfoldable pub body_of : BridgeCall → Fields
unfolding create_body update_body name_body
body_of (create_call id spec input overlap catchup timezone) =
    create_body id spec input overlap catchup timezone
body_of (update_call id spec input) = update_body id spec input
body_of (pause_call id) = name_body id
body_of (unpause_call id) = name_body id
body_of (delete_call id) = name_body id
body_of (trigger_call id) = name_body id

-- The tables that the handlers read or change, and the calls that the bridge has carried out, the
-- last one first.
pub record World : Type 0 where
  pub schedules : List Schedule
  pub next_id : ℕ
  pub audit : List AuditEntry
  pub done : List BridgeCall
  pub registry : Registry
  pub templates : List TemplateRow

pub record CreateSchedule : Type 0 where
  pub name : Str
  pub rule_template_id : ℕ
  pub rule_template_version : ℕ
  pub connector_id : ℕ
  pub spec : Value
  pub timezone : Option Str
  pub overlap_policy : Option Str
  pub catchup_window_seconds : Option ℤ
  pub enabled : Option Bool

pub record UpdateSchedule : Type 0 where
  pub spec : Option Value
  pub enabled : Option Bool
  pub catchup_window_seconds : Option ℤ
  pub timezone : Option Str
  pub overlap_policy : Option Str

-- What a handler is called with: the claims, the user id that `sub` spells, the gate of the license,
-- the text of a new UUID, what the bridge answers, whether a call that fails, as with a timeout, was
-- carried out all the same, whether the table can take back a row, and whether the audit log takes an
-- entry.
pub record Caller : Type 0 where
  pub org : ℕ
  pub role : Str
  pub sub : Str
  pub user : Option ℕ
  pub gate : ApiResult (Unit {0})
  pub uuid : Str
  pub bridge : BridgeCall → Result BridgeError (Unit {0})
  pub lost : BridgeCall → Bool
  pub takes_back : Bool
  pub audit_answer : ApiResult (Unit {0})

unfoldable pub call_bridge :
    (BridgeError → ApiError) → Caller → BridgeCall → World → ApiResult (Unit {0}) × World
call_bridge why c b w = elim (c.bridge b) [
  | ok u ↦ (ok tt, record w { done = b ∷ w.done })
  | err e ↦ (err (why e), if c.lost b then record w { done = b ∷ w.done } else w)
]

-- The calls after a failure: none more, or the one that failed although it was carried out.
abbrev pub MayBeLost : Caller → List BridgeCall → List BridgeCall → Type 0
MayBeLost c before after =
    (after ≡ before) ⊎ ((b : BridgeCall) × (c.lost b ≡ true) × (after ≡ b ∷ before))

-- `ApiError::External(e.to_string())`
abbrev pub failed_call : BridgeError → ApiError
failed_call e = external (bridge_text e)

unfoldable pub record_audit : Caller → ℕ → Str → World → ApiResult (Unit {0}) × World
record_audit c id action w = elim c.audit_answer [
  | err e ↦ (err e, w)
  | ok u ↦ (
    ok tt,
    record w {
      audit =
          record {
            org_id = c.org;
            actor = c.sub;
            entity = lit "schedule";
            entity_id = decimal id;
            action = action;
          }
          ∷ w.audit;
    },
  )
]

-- WHERE id = ? AND org_id = ?
unfoldable pub is_schedule : ℕ → ℕ → Schedule → Bool
is_schedule org id s = (s.id == id) && (s.org_id == org)

unfoldable pub find_schedule : ℕ → ℕ → List Schedule → Option Schedule
unfolding is_schedule
find_schedule org id [] = none
find_schedule org id (s ∷ ss) =
    let rest = find_schedule org id ss in if is_schedule org id s then some s else rest

unfoldable pub update_rows : ℕ → ℕ → (Schedule → Schedule) → List Schedule → List Schedule
unfolding is_schedule
update_rows org id f [] = []
update_rows org id f (s ∷ ss) = (if is_schedule org id s then f s else s) ∷ update_rows org id f ss

unfoldable pub delete_rows : (Schedule → Bool) → List Schedule → List Schedule
delete_rows p [] = []
delete_rows p (s ∷ ss) = let rest = delete_rows p ss in if p s then rest else s ∷ rest

-- The unique constraints on (org_id, name) and on temporal_schedule_id.
unfoldable pub has_text : Str → Option Str → Bool
has_text s none = false
has_text s (some t) = str_eq t s

unfoldable pub is_taken : ℕ → Str → Str → Schedule → Bool
unfolding has_text
is_taken org name sid s =
    ((s.org_id == org) && str_eq s.name name) || has_text sid s.temporal_schedule_id
