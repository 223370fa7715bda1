-- ===== src/Tests/Creation.antt =====
-- Creating a job at concrete inputs: a published template, and a connector as the source.
use migration_platform.Sources.Registry.{find_connector, require_connector, resolve}
use migration_platform.Json.{as_i64, as_object, as_str, get_field}
use migration_platform.Sources.Request.{
  parse_connector, parse_described, parse_kind, parse_source_request,
}
use migration_platform.Text.{str_eq}
use migration_platform.Jobs.Types.{require_role}
use migration_platform.Jobs.Create.{check_create, find_published}
use migration_platform.Prelude.{
  ◌≡◌, ◌⊎◌, refl, true, ◌++◌, none, some, is_some, List, [], ◌∷◌, ok, err,
}
use migration_platform.Text.{Str, lit}
use migration_platform.Json.{null, number, pos_int, string, object, end, field}
use migration_platform.Api.{ApiError}
use migration_platform.Sources.Types.{ResolvedSource, Registry}
use migration_platform.Sources.Registry.{source_ref}
use migration_platform.Templates.Rows.{TemplateRow}
use migration_platform.Jobs.Types.{Db, Call}
use migration_platform.Jobs.Retries.{StartRequest}
use migration_platform.Jobs.Create.{JobCreate, job_input, create_job}
use migration_platform.Jobs.Create.Laws.{Permitted, create_job-Permitted}

abbrev quoted : Str → Str
quoted s = lit "\"" ++ (s ++ lit "\"")

abbrev asked_for : JobCreate
asked_for = record {
  rule_template_id = 5;
  source_ref = object (
      field (lit "type") (string (lit "connector"))
        (field (lit "connector_id") (number (pos_int 4)) end));
}

abbrev registry : Registry
registry = record {
  sources = [];
  connectors = record { id = 4; org_id = 7; kind = lit "salesforce" } ∷ [];
  next_id = 1;
}

abbrev templates : List TemplateRow
templates =
    record {
      id = 5;
      org_id = 7;
      template_key = lit "k";
      version = 2;
      name = lit "n";
      schema_json = null;
      published = true;
      created_by = 3;
    }
    ∷ []

abbrev no_jobs : Db
no_jobs = record { jobs = []; rows = [] }

abbrev call : Call
call = record {
  org = 7;
  role = lit "operator";
  gate = ok tt;
  now = 5;
  start = λ workflow type. ok (lit "run");
  signal = λ workflow name. ok tt;
  cancel = λ workflow. ok tt;
  others = λ db. db;
}

create_job-Permitted_example :
    ((why : ApiError) × (create_job quoted call
          (some 3)
          1
          (lit "u")
          asked_for
          templates
          registry
          no_jobs
        ≡ ((err why, no_jobs), none)))
    ⊎ ((tpl : TemplateRow) × (source : ResolvedSource) × (sent : StartRequest) × ((create_job quoted
            call
            (some 3)
            1
            (lit "u")
            asked_for
            templates
            registry
            no_jobs).1
          ≡ some sent)
        × (sent.input ≡ job_input 7 1 5 tpl.version (source_ref source))
        × Permitted quoted call asked_for registry tpl source)
create_job-Permitted_example =
    create_job-Permitted quoted call (some 3) 1 (lit "u") asked_for templates registry no_jobs

creation_starts :
    is_some (create_job quoted call (some 3) 1 (lit "u") asked_for templates registry no_jobs).1
    ≡ true
unfolding create_job check_create require_role str_eq find_published parse_source_request as_object
    get_field parse_described as_i64 parse_kind as_str parse_connector resolve require_connector
    find_connector
creation_starts = refl
