-- ===== src/Templates/Types.antt =====
-- apps/api/src/rule_template_types.rs: the data of a rule template. A map from names to values is the
-- list of its fields.
use migration_platform.Prelude.{ℕ, Option, none, some, List, [], ◌∷◌}
use migration_platform.Int.{ℤ}
use migration_platform.Text.{Str, lit}
use migration_platform.Json.{Value, Fields}

pub data SourceType : Type 0 where
  csv json xml salesforce watched_prefix : SourceType

pub data FieldType : Type 0 where
  string_field integer_field number_field boolean_field datetime_field object_field : FieldType

pub record SourceField : Type 0 where
  pub name : Str
  pub field_type : FieldType

pub record Source : Type 0 where
  pub source_type : SourceType
  pub schema : Option (List SourceField)
  pub options : Option Value
  pub connector_id : Option ℤ

pub record PreprocessStep : Type 0 where
  pub id : Str
  pub column : Str
  pub function : Str
  pub args : Option Value
  pub code : Option Str

pub data AuthType : Type 0 where
  bearer basic api_key oauth2_client : AuthType

pub record Auth : Type 0 where
  pub auth_type : AuthType
  pub secret_ref : Option Str
  pub header_name : Option Str

pub data HttpMethod : Type 0 where
  get_method post put patch delete : HttpMethod

pub data DeliveryMode : Type 0 where
  idempotent lookup manual : DeliveryMode

pub record Lookup : Type 0 where
  pub method : Option Str
  pub url : Str
  pub path_params : Option Fields
  pub query_params : Option Fields
  pub headers : Option Fields
  pub found_path : Str

pub record Delivery : Type 0 where
  pub mode : DeliveryMode
  pub idempotency_retention_hours : Option ℕ
  pub lookup_by : Option Lookup

pub record Destination : Type 0 where
  pub destination_type : Str
  pub method : HttpMethod
  pub url : Str
  pub path_params : Option Fields
  pub query_params : Option Fields
  pub headers : Option Fields
  pub auth : Option Auth
  pub idempotency_key : Option Value
  pub idempotency_header : Option Str
  pub delivery : Option Delivery

pub data BackoffKind : Type 0 where
  exponential fixed : BackoffKind

pub record Retry : Type 0 where
  pub max_attempts : Option ℕ
  pub backoff : Option BackoffKind
  pub initial_interval_ms : Option ℕ

pub record Mapping : Type 0 where
  pub payload : Fields

pub data OnFailure : Type 0 where
  stop continue : OnFailure

pub record Step : Type 0 where
  pub name : Str
  pub description : Option Str
  pub mapping : Option Mapping
  pub destination : Destination
  pub on_failure : Option OnFailure

pub record ExportColumn : Type 0 where
  pub name : Str
  pub from : Option Str
  pub from_response : Option Str
  pub path : Option Str

pub record ExportSpec : Type 0 where
  pub columns : Option (List ExportColumn)

pub record RuleTemplate : Type 0 where
  pub id : Str
  pub version : ℕ
  pub name : Str
  pub source : Source
  pub preprocess : List PreprocessStep
  pub mapping : Option Mapping
  pub destination : Option Destination
  pub steps : Option (List Step)
  pub retry : Option Retry
  pub concurrency : Option ℕ
  pub export : Option ExportSpec

-- The single-destination shape, as a list of steps.
abbrev main_step : Option Mapping → Option Destination → List Step
main_step (some m) (some d) =
    record {
      name = lit "main";
      description = none;
      mapping = some m;
      destination = d;
      on_failure = none;
    }
    ∷ []
main_step (some m) none = []
main_step none d = []

unfoldable pub execution_steps : RuleTemplate → List Step
execution_steps t = elim t.steps [ some steps ↦ steps | none ↦ main_step t.mapping t.destination ]
