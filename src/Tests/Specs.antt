-- ===== src/Tests/Specs.antt =====
-- Schemas, addresses, secrets, previews and answers of a model at concrete inputs.
use migration_platform.Text.{as_bytes, is_ascii_alphanumeric, len}
use migration_platform.Jobs.Types.{require_role}
use migration_platform.Secrets.{check_put, find_secret, record_audit, validate_name}
use migration_platform.Text.{str_eq}
use migration_platform.Prelude.{
  Result, err, map, ◌≡◌, ◌↔◌, refl, true, false, Option, none, some, List, [], ◌∷◌, ◌++◌, ok, arith,
}
use migration_platform.Text.{Str, lit}
use migration_platform.Json.{Value, null, string, object, end, field}
use migration_platform.Llm.{extract_json, panic}
use migration_platform.DryRun.{dry_run}
use migration_platform.Prelude.{◌≢◌}
use migration_platform.Json.{Fields, get_field}
use migration_platform.Specs.Operations.{Origin, resolve_operation_url, parse_operations}
use migration_platform.Specs.Address.{
  v4, v6, ip_is_private, InPrivateBlock, number_v4, ip_is_private-InPrivateBlock,
}
use migration_platform.Specs.Schema.{resolve_schema}
use migration_platform.Specs.Schema.Laws.{
  referred, leaf, of_object, one_field, no_fields, resolve_schema_complete,
}
use migration_platform.Secrets.{put_secret, Secret, World, Caller}
use migration_platform.Secrets.Laws.{Request, put, withdraw, Keeps, serve_all, serve_all-Keeps}

-- An address of IPv4 in the form of IPv6, ::ffff:10.0.0.1, is not refused.
mapped_address_passes : ip_is_private (v6 0 0 0 0 0 0xffff 0x0a00 1) ≡ false
unfolding ip_is_private
mapped_address_passes = refl

ip_is_private-InPrivateBlock_example :
    (ip_is_private (v4 100 64 1 1) ≡ true) ↔ InPrivateBlock (number_v4 100 64 1 1)
ip_is_private-InPrivateBlock_example =
    ip_is_private-InPrivateBlock 100 64 1 1 (omega arith) (omega arith) (omega arith) (omega arith)

-- A document in which the reference #t leads to a text.
abbrev pointer : Value → Str → Option Value
pointer spec at = some (string at)

abbrev tag_fields : Fields
tag_fields = field (lit "tag") (object (field (lit "$ref") (string (lit "#t")) end)) end

abbrev tagged : Value
tagged = object tag_fields

abbrev resolved_tag : Value
resolved_tag = object (field (lit "tag") (string (lit "t")) end)

no_reference : (r : Str) → get_field (lit "$ref") tag_fields ≢ some (string r)
unfolding get_field str_eq
no_reference r = λ e. cc e

tag_reference :
    get_field (lit "$ref") (field (lit "$ref") (string (lit "#t")) end)
    ≡ some (string (lit "#" ++ lit "t"))
unfolding get_field str_eq
tag_reference = refl

resolve_schema_complete_example : resolve_schema pointer null 7 tagged ≡ resolved_tag
resolve_schema_complete_example =
    resolve_schema_complete pointer null 3 tagged resolved_tag
      (of_object no_reference
        (one_field (referred (lit "t") tag_reference refl (leaf refl)) no_fields))
      (omega arith)

abbrev quoted : Str → Str
quoted s = lit "\"" ++ (s ++ lit "\"")

abbrev secret : Str → Str → Secret
secret name kind = record {
  org_id = 7;
  name = name;
  ciphertext = 1 ∷ [];
  nonce = 2 ∷ [];
  kind = kind;
  created_at = 1;
  updated_at = 1;
  revoked_at = none;
}

abbrev table : World
table = record {
  secrets = secret (lit "llm") (lit "llm") ∷ secret (lit "crm") (lit "destination") ∷ [];
  audit = [];
}

abbrev caller : (List Secret → List Secret) → Caller
caller others = record {
  org = 7;
  role = lit "admin";
  sub = lit "3";
  now = 5;
  encrypt = λ bytes. ok (bytes, 9 ∷ []);
  others = others;
  audit_answer = ok tt;
}

abbrev alone : Caller
alone = caller (λ ss. ss)

abbrev requests : List (Caller × Request)
requests =
    (alone, put (lit "crm") (lit "a"))
    ∷ (alone, put (lit "llm") (lit "b"))
    ∷ (alone, withdraw (lit "crm"))
    ∷ []

serve_all-Keeps_example : Keeps quoted table.secrets (serve_all quoted requests table).secrets
serve_all-Keeps_example =
    serve_all-Keeps quoted requests table (λ ss. refl, (λ ss. refl, (λ ss. refl, tt)))

-- Another request that stores an internal secret between the two statements: its value is replaced.
abbrev meddled : Caller
meddled = caller (λ ss. secret (lit "new") (lit "llm") ∷ ss)

stored_between :
    (put_secret quoted meddled (lit "new") (lit "a") table).1.secrets
    ≡ record (secret (lit "new") (lit "llm")) {
      ciphertext = lit "a";
      nonce = 9 ∷ [];
      updated_at = 5;
    }
      ∷ table.secrets
unfolding put_secret check_put require_role str_eq validate_name len is_ascii_alphanumeric
    find_secret record_audit as_bytes
stored_between = refl

-- An answer of the model with its braces the wrong way round.
abbrev unparsed : Str → Result Str Value
unparsed s = err (lit "expected value")

reversed_braces_panic : extract_json unparsed (lit "} {") ≡ panic
unfolding extract_json
reversed_braces_panic = refl

-- A row in which a template finds a name.
previewed :
    dry_run
      (object (
        field
          (lit "mapping")
          (object (
            field
              (lit "payload")
              (object
                (field (lit "who") (object (field (lit "$from") (string (lit "name")) end)) end))
              end))
          end))
      (object (field (lit "name") (string (lit "Ada")) end) ∷ [])
    ≡ object (field (lit "who") (string (lit "Ada")) end) ∷ []
unfolding dry_run str_eq
previewed = refl

-- A relative server address, as the tests of the source have it.
abbrev petstore : Str → Option Origin
petstore url =
    some (record { scheme = lit "https"; host = some (lit "petstore3.swagger.io"); port = none })

relative_server :
    resolve_operation_url petstore
      (lit "/api/v3")
      (lit "/pet")
      (some (lit "https://petstore3.swagger.io/api/v3/openapi.json"))
    ≡ lit "https://petstore3.swagger.io/api/v3/pet"
unfolding resolve_operation_url
relative_server = refl

abbrev pet_document : Value
pet_document = object (
    field (lit "paths")
      (object (
        field (lit "/pet")
          (object
            (field (lit "post") (object (field (lit "summary") (string (lit "Add")) end)) end))
          end))
      end)

one_operation :
    map {B = Str × Str}
      (λ o. (o.operation_id, o.method))
      (parse_operations pointer petstore pet_document none)
    ≡ (lit "post_pet", lit "POST") ∷ []
unfolding parse_operations str_eq
one_operation = refl
