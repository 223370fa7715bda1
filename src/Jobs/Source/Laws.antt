-- ===== src/Jobs/Source/Laws.antt =====
-- apps/api/src/job_source.rs: the summary says what the registry has stored of the upload.
use migration_platform.Prelude.{ℕ, ◌<◌, ◌^◌, ◌≡◌, refl, true, Option, some, arith}
use migration_platform.Int.{pos}
use migration_platform.Text.{Str, lit, trim, nonempty}
use migration_platform.Json.{Value}
use migration_platform.Sources.Types.{RegisteredSource, resolved_object}
use migration_platform.Sources.Registry.{source_ref}
use migration_platform.Text.{str_eq}
use migration_platform.Jobs.Source.{JobSourceSummary, summarize_source, nonempty_text}

-- A text of an upload that is kept as it is: it is not empty, and nothing of it is trimmed.
abbrev pub IsSolid : Str → Type 0
IsSolid s = (trim s ≡ s) × (nonempty s ≡ true)

nonempty_text-solid : (s : Str) → IsSolid s → nonempty_text (some s) ≡ some s
unfolding nonempty_text
nonempty_text-solid s h = rw (h.0, h.1)

-- What a summary says of an upload.
abbrev pub SumsUp : RegisteredSource → Str → ℕ → JobSourceSummary → Type 0
SumsUp r name size s =
    (s.kind ≡ lit "minio")
    × (s.bucket ≡ some r.bucket)
    × (s.key ≡ some r.object_key)
    × (s.filename ≡ some name)
    × (s.size ≡ some (pos size))

-- The reference that is stored on a job for an upload, whose texts are not empty and have no spaces
-- around them, is summed up as the upload's own bucket, key, name and size, whatever the batch is.
pub summarize_source-source_ref :
    (r : RegisteredSource) (batch : Option ℕ) (archive : Option Value)
    (stage_key stage_file : Option Str) (name : Str) (size : ℕ)
    → r.filename ≡ some name
    → r.size_bytes ≡ some size
    → IsSolid r.bucket
    → IsSolid r.object_key
    → IsSolid name
    → size < 2 ^ 63
    → SumsUp r name size
        (summarize_source (source_ref (resolved_object r)) batch archive stage_key stage_file)
unfolding summarize_source source_ref str_eq
summarize_source-source_ref r batch archive stage_key stage_file name size named sized bucket key
      solid lt =
    (
      refl,
      rw (bucket.0, bucket.1),
      rw (key.0, key.1),
      rw (named, solid.0, solid.1),
      rw sized (ground arith),
    )
