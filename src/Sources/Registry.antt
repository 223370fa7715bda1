-- ===== src/Sources/Registry.antt =====
-- apps/api/src/sources.rs: the registry: registering an upload, resolving a request for an
-- organisation, and the reference that is stored on a job.
pub mod Laws
pub mod Roundtrip
use migration_platform.Prelude.{
  ℕ, ◌+◌, ◌++◌, Bool, true, false, not, ◌&&◌, ◌||◌, Option, none, some, List, [], ◌∷◌, any, Result,
  ok, err, ◌>>=◌, ◌>>◌, ensure, ok_or, ◌==◌, if◌then◌else◌,
}
use migration_platform.Text.{Str, lit, str_eq, to_ascii_lowercase, decimal}
use migration_platform.Text.Parts.{ends_with, last_part}
use migration_platform.Json.{Value, null, number, pos_int, string, object, Fields, end, field}
use migration_platform.Api.{ApiError, ApiResult, bad_request}
use migration_platform.Sources.Types.{
  SourceRequest, by_id, stored_object, from_connector, RegisteredSource, ResolvedSource,
  resolved_object, resolved_connector, Connector, Registry, NewUpload, job_connector_kinds,
}

unfoldable pub format_from_filename : Str → Str
format_from_filename name =
    let lower = to_ascii_lowercase name in
    if ends_with lower (lit ".tar.gz")
      || ends_with lower (lit ".tgz")
      || ends_with lower (lit ".zip")
    then lit "archive"
    else if ends_with lower (lit ".json")
        || ends_with lower (lit ".ndjson")
        || ends_with lower (lit ".jsonl")
    then lit "json"
    else if ends_with lower (lit ".xml")
    then lit "xml"
    else lit "csv"

-- SELECT … FROM sources WHERE id = ? AND org_id = ?
unfoldable pub find_source : ℕ → ℕ → List RegisteredSource → Option RegisteredSource
find_source org id [] = none
find_source org id (r ∷ rs) =
    let rest = find_source org id rs in if (r.id == id) && (r.org_id == org) then some r else rest

unfoldable pub is_at : ℕ → Str → Str → RegisteredSource → Bool
is_at org bucket key r = (r.org_id == org) && (str_eq r.bucket bucket && str_eq r.object_key key)

-- SELECT … FROM sources WHERE org_id = ? AND bucket = ? AND object_key = ?
unfoldable pub lookup_object : ℕ → Str → Str → List RegisteredSource → Option RegisteredSource
unfolding is_at
lookup_object org bucket key [] = none
lookup_object org bucket key (r ∷ rs) =
    let rest = lookup_object org bucket key rs in if is_at org bucket key r then some r else rest

unfoldable pub find_connector : ℕ → ℕ → List Connector → Option Str
find_connector org id [] = none
find_connector org id (c ∷ cs) =
    let rest = find_connector org id cs in
    if (c.id == id) && (c.org_id == org) then some c.kind else rest

abbrev not_registered : ApiError
not_registered =
    bad_request
      (lit "source not found for this organization; upload the file with POST /files first")

unfoldable pub require_connector : ℕ → ℕ → Registry → ApiResult Str
require_connector org id reg =
    ok_or (find_connector org id reg.connectors)
      (bad_request (lit "connector " ++ (decimal id ++ lit " not found")))

unfoldable pub resolve : ℕ → SourceRequest → Registry → ApiResult ResolvedSource
resolve org (by_id id) reg = do
  src ← ok_or (find_source org id reg.sources) not_registered
  ok (resolved_object src)
resolve org (stored_object bucket key) reg = do
  src ← ok_or (lookup_object org bucket key reg.sources) not_registered
  ok (resolved_object src)
resolve org (from_connector id extra) reg = do
  kind ← require_connector org id reg
  ensure (any (λ k. str_eq k kind) job_connector_kinds) (
      bad_request
        (lit "connector kind " ++ (kind ++ lit " cannot feed a job directly; use a schedule")))
  ok (resolved_connector id kind extra)

abbrev only_object : ResolvedSource → ApiResult RegisteredSource
only_object (resolved_object src) = ok src
only_object (resolved_connector id kind extra) =
    err (bad_request (lit "this operation needs an uploaded file source, not a connector"))

unfoldable pub resolve_object : ℕ → SourceRequest → Registry → ApiResult RegisteredSource
resolve_object org req reg = do src ← resolve org req reg; only_object src

abbrev or_old : Option Str → Option Str → Option Str
or_old none old = old
or_old (some e) old = some e

-- ON CONFLICT … DO UPDATE
unfoldable pub refresh : NewUpload → RegisteredSource → RegisteredSource
refresh u r = record r {
  filename = some u.filename;
  format = some (format_from_filename u.filename);
  etag = or_old u.etag r.etag;
}

unfoldable pub new_source : ℕ → NewUpload → RegisteredSource
new_source id u = record {
  id = id;
  org_id = u.org;
  bucket = u.bucket;
  object_key = u.key;
  sha256 = some u.sha256;
  etag = u.etag;
  size_bytes = some u.size;
  filename = some u.filename;
  format = some (format_from_filename u.filename);
}

unfoldable pub refresh_at : NewUpload → List RegisteredSource → List RegisteredSource
unfolding refresh is_at
refresh_at u [] = []
refresh_at u (r ∷ rs) = (if is_at u.org u.bucket u.key r then refresh u r else r) ∷ refresh_at u rs

-- The sequence moves on in either case.
unfoldable pub register_upload : NewUpload → Registry → RegisteredSource × Registry
unfolding refresh_at new_source
register_upload u reg = elim (lookup_object u.org u.bucket u.key reg.sources) [
  | some old ↦
      (refresh u old, record reg { sources = refresh_at u reg.sources; next_id = reg.next_id + 1 })
  | none ↦
      let row = new_source reg.next_id u in
      (row, record reg { sources = row ∷ reg.sources; next_id = reg.next_id + 1 })
]

abbrev text_or_null : Option Str → Value
text_or_null none = null
text_or_null (some s) = string s

abbrev size_or_null : Option ℕ → Value
size_or_null none = null
size_or_null (some n) = number (pos_int n)

abbrev name_or : Option Str → Str → Str
name_or none d = d
name_or (some s) d = s

-- `RegisteredSource::source_ref`
unfoldable pub object_ref : RegisteredSource → Value
object_ref r = object (
    field (lit "type") (string (lit "minio")) (
      field (lit "source_id") (number (pos_int r.id)) (
        field (lit "bucket") (string r.bucket) (
          field (lit "key") (string r.object_key) (
            field (lit "filename") (string (name_or r.filename (last_part b'/' r.object_key))) (
              field (lit "size") (size_or_null r.size_bytes) (
                field (lit "sha256") (text_or_null r.sha256)
                  (field (lit "etag") (text_or_null r.etag) end))))))))

-- `ResolvedSource::source_ref`
unfoldable pub source_ref : ResolvedSource → Value
unfolding object_ref
source_ref (resolved_object src) = object_ref src
source_ref (resolved_connector id kind extra) = object (
    field (lit "type") (string (lit "connector")) (
      field (lit "connector_id") (number (pos_int id))
        (field (lit "connector_kind") (string kind) (field (lit "extra") (object extra) end))))
