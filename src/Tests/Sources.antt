-- ===== src/Tests/Sources.antt =====
-- Sources at concrete inputs: an upload of one organisation, and a connector of the same.
use migration_platform.Text.Parts.{trim_start_matches}
use migration_platform.Text.{decimal, split, starts_with, trim}
use migration_platform.Json.{get}
use migration_platform.Sources.Locations.{check_connector_locations, config_text, org_object_prefix}
use migration_platform.Sources.Registry.{find_connector, require_connector}
use migration_platform.Sources.Request.{parse_connector, parse_described, parse_kind}
use migration_platform.Text.{str_eq}
use migration_platform.Json.{as_i64, as_object, as_str, get_field}
use migration_platform.Prelude.{ℕ, ◌≡◌, refl, ◌++◌, none, [], ◌∷◌, ok, arith}
use migration_platform.Text.{Str, lit}
use migration_platform.Json.{Value, number, pos_int, string, object, Fields, end, field}
use migration_platform.Sources.Types.{
  SourceRequest, from_connector, resolved_connector, Registry, NewUpload,
}
use migration_platform.Sources.Request.{parse_source_request}
use migration_platform.Sources.Registry.{source_ref, resolve}
use migration_platform.Sources.Registry.Laws.{IsSound}
use migration_platform.Sources.Registry.Roundtrip.{resolve-source_ref}
use migration_platform.Sources.Locations.Laws.{check_watched_prefix_unique}

abbrev quoted : Str → Str
quoted s = lit "\"" ++ (s ++ lit "\"")

abbrev salesforce_request : Value
salesforce_request = object (
    field (lit "type") (string (lit "connector")) (
      field (lit "connector_id") (number (pos_int 4))
        (field (lit "extra") (object (field (lit "soql") (string (lit "SELECT Id")) end)) end)))

abbrev soql : Fields
soql = field (lit "soql") (string (lit "SELECT Id")) end

abbrev shop : Registry
shop = record {
  sources = [];
  connectors = record { id = 4; org_id = 7; kind = lit "salesforce" } ∷ [];
  next_id = 1;
}

abbrev upload : NewUpload
upload = record {
  org = 7;
  bucket = lit "uploads";
  key = lit "orgs/7/a.csv";
  sha256 = lit "ab";
  etag = none;
  size = 3;
  filename = lit "a.csv";
}

abbrev seventh : ℕ
seventh = 7

abbrev watched : Value
watched = object (
    field (lit "bucket") (string (lit "landing"))
      (field (lit "prefix") (string (lit "orgs/7/in/")) end))

shop-IsSound : IsSound shop
shop-IsSound = record { started = omega arith; below = tt; distinct = tt }

resolve-source_ref_example :
    (req : SourceRequest) × (parse_source_request quoted
        (source_ref (resolved_connector 4 (lit "salesforce") soql))
      ≡ ok req)
    × (resolve 7 req shop ≡ ok (resolved_connector 4 (lit "salesforce") soql))
unfolding parse_source_request as_object get_field str_eq parse_described as_i64 parse_kind as_str
    parse_connector resolve require_connector find_connector
resolve-source_ref_example =
    resolve-source_ref quoted 7 salesforce_request (from_connector 4 soql) shop
      (resolved_connector 4 (lit "salesforce") soql) shop-IsSound (omega arith) refl refl

check_watched_prefix_unique_example : seventh ≡ 7
unfolding check_connector_locations str_eq config_text get as_str trim trim_start_matches split
    starts_with org_object_prefix decimal
check_watched_prefix_unique_example =
    check_watched_prefix_unique quoted watched seventh 7 (lit "landing" ∷ []) (lit "landing" ∷ [])
      refl refl
