-- ===== src/Sampling/Xml/Sampled.antt =====
-- apps/api/src/sampling/xml.rs: the sample of a document whose elements are closed.
use migration_platform.Prelude.{ℕ, ◌≡◌, Bool, ◌||◌, List, length, take, ltb}
use migration_platform.Text.{Str}
use migration_platform.Json.{Value, Fields}
use migration_platform.Sampling.Csv.{SampleResult}
use migration_platform.Sampling.Union.Laws.{IsUnion}
use migration_platform.Sampling.Xml.{xml_text}

module _ (value_text : Value → Str) (is_f64 is_rfc3339 is_date : Str → Bool) where
  -- What a sample says of the rows of a document.
  pub record Samples (row_cap : ℕ) (truncated_input : Bool) (rows : List Fields) (r : SampleResult)
      : Type 0 where
    pub first_rows : r.rows ≡ take row_cap rows
    pub counted : r.row_count ≡ length r.rows
    pub marked : r.truncated ≡ truncated_input || ltb row_cap (length rows)
    pub union : IsUnion (xml_text value_text) is_f64 is_rfc3339 is_date r.rows r.columns
