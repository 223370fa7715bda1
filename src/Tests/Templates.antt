-- ===== src/Tests/Templates.antt =====
-- Templates at concrete inputs: two steps of which the second refers to the first, and a table with a
-- published version.
use migration_platform.Templates.Shape.{destination_value}
use migration_platform.Json.{get_field}
use migration_platform.Prelude.{ℕ, ◌≡◌, ◌↔◌, refl, true, ◌++◌, none, some, List, [], ◌∷◌, ok, arith}
use migration_platform.Text.{Str, lit, str_eq}
use migration_platform.Json.{Value, null, string, object, Fields, end, field}
use migration_platform.Api.{ApiResult}
use migration_platform.Templates.Types.{
  csv, Destination, post, Step, RuleTemplate, execution_steps, manual, bearer,
}
use migration_platform.Templates.Refs.{collect_response_refs}
use migration_platform.Templates.Refs.Laws.{RefersTo, is_in, collect_response_refs-RefersTo}
use migration_platform.Templates.Validate.{validate_step_references, validate_destinations}
use migration_platform.Templates.Validate.Order.{InOrder, validate_step_references-InOrder}
use migration_platform.Templates.Rows.{TemplateRow, find_row}
use migration_platform.Templates.Table.{Caller, CreateRequest, Templates}
use migration_platform.Templates.Table.Laws.{Request, adds, publishes, deletes, run_all}
use migration_platform.Templates.Table.Versions.{IsSound}
use migration_platform.Templates.Table.Published.{published-stays}

abbrev quoted : Str → Str
quoted s = lit "\"" ++ (s ++ lit "\"")

abbrev endpoint : Destination
endpoint = record {
  destination_type = lit "http";
  method = post;
  url = lit "https://x/c";
  path_params = none;
  query_params = none;
  headers = none;
  auth = some (record { auth_type = bearer; secret_ref = some (lit "crm"); header_name = none });
  idempotency_key = none;
  idempotency_header = none;
  delivery = some (record { mode = manual; idempotency_retention_hours = none; lookup_by = none });
}

abbrev reference : Value
reference = object (field (lit "$fromResponse") (string (lit "first")) end)

abbrev nested : Value
nested = object (field (lit "id") reference end)

abbrev step_of : Str → Fields → Step
step_of name payload = record {
  name = name;
  description = none;
  mapping = some (record { payload = payload });
  destination = endpoint;
  on_failure = none;
}

abbrev chain : RuleTemplate
chain = record {
  id = lit "rt";
  version = 1;
  name = lit "chain";
  source = record { source_type = csv; schema = none; options = none; connector_id = none };
  preprocess = [];
  mapping = none;
  destination = none;
  steps =
      some
        (step_of (lit "first") end ∷ step_of (lit "second") (field (lit "id") reference end) ∷ []);
  retry = none;
  concurrency = none;
  export = none;
}

abbrev accept : Value → ApiResult RuleTemplate
accept v = ok chain

abbrev editor : ℕ → Caller
editor org = record {
  org = org;
  role = lit "editor";
  sub = lit "3";
  user = some 3;
  uuid = lit "u";
  validate = accept;
  audit_answer = ok tt;
}

abbrev live : TemplateRow
live = record {
  id = 1;
  org_id = 7;
  template_key = lit "k";
  version = 1;
  name = lit "n";
  schema_json = null;
  published = true;
  created_by = 3;
}

abbrev table : Templates
table = record { rows = live ∷ []; next_id = 2; audit = [] }

abbrev request : CreateRequest
request = record { template_key = some (lit "k"); name = lit "n"; schema_json = null }

abbrev requests : List (Caller × Request)
requests = (editor 7, adds 1 request) ∷ (editor 8, publishes 1) ∷ (editor 7, deletes 1) ∷ []

table-IsSound : IsSound table
table-IsSound = record { below = (omega arith, tt); distinct = (tt, tt) }

collect_response_refs-RefersTo_example :
    (is_in (lit "first") (collect_response_refs nested) ≡ true) ↔ RefersTo (lit "first") nested
collect_response_refs-RefersTo_example = collect_response_refs-RefersTo (lit "first") nested

validate_step_references-InOrder_example :
    (validate_step_references quoted chain ≡ ok tt) ↔ InOrder [] (execution_steps chain)
validate_step_references-InOrder_example = validate_step_references-InOrder quoted chain

chain_accepted :
    (validate_step_references quoted chain ≡ ok tt) × (validate_destinations quoted chain ≡ ok tt)
unfolding validate_step_references collect_response_refs get_field destination_value str_eq
    validate_destinations
chain_accepted = (refl, refl)

published-stays_example : find_row 7 1 (run_all requests table).rows ≡ some live
unfolding find_row
published-stays_example = published-stays requests table 7 1 live table-IsSound refl refl
