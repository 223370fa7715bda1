-- ===== src/Jobs/Source.antt =====
-- apps/api/src/job_source.rs: the summary of a job's source that the answers of the API carry. The
-- JSON of a job's row, which serde derives, is an argument.
pub mod Laws
use migration_platform.Prelude.{
  ℕ, ◌==◌, Bool, true, false, not, ◌||◌, is_empty, Option, none, some, List, [], ◌∷◌, if◌then◌else◌,
}
use migration_platform.Int.{ℤ}
use migration_platform.Text.{Str, lit, trim, nonempty, filter_opt}
use migration_platform.Text.Parts.{last_part, last_or}
use migration_platform.Json.{
  Value, null, bool, number, string, array, object, Fields, end, field, get, get_field, as_str,
  as_i64,
}
use migration_platform.Sampling.Csv.{insert_field}

pub record JobSourceSummary : Type 0 where
  pub kind : Str
  pub bucket : Option Str
  pub key : Option Str
  pub filename : Option Str
  pub size : Option ℤ
  pub etag : Option Str
  pub sha256 : Option Str
  pub batch_id : Option ℕ
  pub batch_stage_key : Option Str
  pub batch_stage_file : Option Str
  pub package_key : Option Str
  pub package_filename : Option Str

pub record ParsedRef : Type 0 where
  pub kind : Str
  pub bucket : Option Str
  pub key : Option Str
  pub filename : Option Str
  pub size : Option ℤ
  pub etag : Option Str
  pub sha256 : Option Str

abbrev pub or_else : Option Str → Option Str → Option Str
or_else (some s) d = some s
or_else none d = d

abbrev pub map_opt {ℓ κ} : {A : Type ℓ} {B : Type κ} → (A → B) → Option A → Option B
map_opt f none = none
map_opt f (some a) = some (f a)

abbrev pub and_then {ℓ κ} : {A : Type ℓ} {B : Type κ} → Option A → (A → Option B) → Option B
and_then none f = none
and_then (some a) f = f a

-- `nonempty`
unfoldable pub nonempty_text : Option Str → Option Str
unfolding trim
nonempty_text s = filter_opt (λ t. nonempty t) (map_opt trim s)

unfoldable pub string_field : Value → Str → Option Str
unfolding nonempty_text get as_str
string_field v name = nonempty_text (and_then (get name v) as_str)

-- `rsplit(['/', '\\']).next()`: the part behind the last slash of either kind.
unfoldable pub basename_from : Str → Str → Str
basename_from part [] = part
basename_from part (c ∷ s) =
    let fresh = basename_from s s in
    let kept = basename_from part s in if (c == b'/') || (c == b'\\') then fresh else kept

unfoldable pub basename : Str → Str
unfolding basename_from
basename key = let name = basename_from key key in if is_empty name then key else name

abbrev kind_or : Option Str → Str
kind_or none = lit "unknown"
kind_or (some s) = s

abbrev or_value : Option Value → Option Value → Option Value
or_value (some v) d = some v
or_value none d = d

-- A reference that is a text, and one that is an object.
unfoldable pub text_ref : Str → ParsedRef
unfolding last_part
text_ref s = record {
  kind = lit "upload";
  bucket = none;
  key = some s;
  filename = filter_opt (λ p. nonempty p) (some (last_part b':' s));
  size = none;
  etag = none;
  sha256 = none;
}

unfoldable pub object_source : Value → ParsedRef
unfolding string_field basename get as_str as_i64
object_source v = record {
  kind = kind_or (and_then (or_value (get (lit "type") v) (get (lit "kind") v)) as_str);
  bucket = string_field v (lit "bucket");
  key = string_field v (lit "key");
  filename =
      or_else (string_field v (lit "filename")) (map_opt basename (string_field v (lit "key")));
  size = and_then (get (lit "size") v) as_i64;
  etag = string_field v (lit "etag");
  sha256 = string_field v (lit "sha256");
}

unfoldable pub parse_ref : Value → ParsedRef
unfolding text_ref object_source as_str
parse_ref v = elim (as_str v) [ some s ↦ text_ref s | none ↦ object_source v ]

unfoldable pub summarize_source :
    Value → Option ℕ → Option Value → Option Str → Option Str → JobSourceSummary
unfolding parse_ref nonempty_text basename
summarize_source source_ref batch_id batch_source_ref stage_key stage_file =
    let parsed = parse_ref source_ref in
    let archive = map_opt parse_ref batch_source_ref in
    record {
      kind = parsed.kind;
      bucket = parsed.bucket;
      key = parsed.key;
      filename = parsed.filename;
      size = parsed.size;
      etag = parsed.etag;
      sha256 = parsed.sha256;
      batch_id = batch_id;
      batch_stage_key = nonempty_text stage_key;
      batch_stage_file =
          or_else (nonempty_text stage_file)
            (or_else parsed.filename (map_opt basename parsed.key));
      package_key = and_then archive (λ p. p.key);
      package_filename = and_then archive (λ p. or_else p.filename (map_opt basename p.key));
    }

-- Only an object takes the field.
abbrev with_source : Value → Value → Value
with_source s (object fs) = object (insert_field (lit "source") s fs)
with_source s null = null
with_source s (bool b) = bool b
with_source s (number n) = number n
with_source s (string t) = string t
with_source s (array vs) = array vs

unfoldable pub job_json_with_source :
    (summary_json : JobSourceSummary → Value) (job_json source_ref : Value)
    → Option ℕ
    → Option Value
    → Option Str
    → Option Str
    → Value
unfolding summarize_source insert_field
job_json_with_source summary_json job_json source_ref batch_id batch_source_ref stage_key
      stage_file =
    with_source
      (summary_json (summarize_source source_ref batch_id batch_source_ref stage_key stage_file))
      job_json
