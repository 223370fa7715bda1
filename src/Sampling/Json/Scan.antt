-- ===== src/Sampling/Json/Scan.antt =====
-- apps/api/src/sampling/json.rs: best_effort_array, which takes the complete objects out of the text
-- of an array that was cut. The parser of serde_json and the UTF-8 decoder are arguments. `start` is
-- kept as the text from the opening brace on, where the source keeps its offset.
use migration_platform.Prelude.{
  ℕ, zero, suc, Bool, true, false, Option, none, some, List, [], ◌∷◌, ◌++◌, Result, ok, err, ok_or,
  ◌>>=◌, ◌==◌, if◌then◌else◌,
}
use migration_platform.Text.{Str, lit}
use migration_platform.Int.{ℤ, pos, negsuc}
use migration_platform.Json.{Value}
use migration_platform.Sampling.Csv.{SampleError, invalid}

-- `depth += 1` and `depth -= 1`
unfoldable pub succ : ℤ → ℤ
succ (pos n) = pos (suc n)
succ (negsuc zero) = pos zero
succ (negsuc (suc n)) = negsuc n

unfoldable pub pred : ℤ → ℤ
pred (pos zero) = negsuc zero
pred (pos (suc n)) = pos n
pred (negsuc n) = negsuc (suc n)

unfoldable pub is_zero : ℤ → Bool
is_zero (pos zero) = true
is_zero (pos (suc n)) = false
is_zero (negsuc n) = false

-- The variables of the loop.
pub record Scan : Type 0 where
  pub depth : ℤ
  pub start : Option Str
  pub in_string : Bool
  pub escape : Bool
  pub out : List Value

abbrev pub extend : ℕ → Option Str → Option Str
extend ch none = none
extend ch (some text) = some (text ++ (ch ∷ []))

abbrev pub scan_start : Scan
scan_start = record { depth = pos 0; start = none; in_string = false; escape = false; out = [] }

abbrev pub some_records : List Value → Result SampleError (List Value)
some_records [] = err (invalid (lit "json") (lit "could not extract any complete records"))
some_records (v ∷ vs) = ok (v ∷ vs)

module _ (from_str : Str → Result Str Value) where
  -- What the text of an object adds: nothing if it does not parse.
  unfoldable pub parsed : Option Str → List Value
  parsed none = []
  parsed (some text) = elim (from_str text) [ ok v ↦ v ∷ [] | err e ↦ [] ]

  -- The closing brace, with the new depth and the text up to it.
  unfoldable pub close_brace : ℤ → Option Str → Scan → Scan
  unfolding parsed
  close_brace depth start s =
      if is_zero depth
      then record s { depth = depth; start = none; out = s.out ++ parsed start }
      else record s { depth = depth; start = start }

  -- One character inside a string, and one outside.
  unfoldable pub in_string_step : ℕ → Scan → Scan
  in_string_step ch s =
      if s.escape
      then record s { start = extend ch s.start; escape = false }
      else if ch == b'\\'
      then record s { start = extend ch s.start; escape = true }
      else if ch == b'"'
      then record s { start = extend ch s.start; in_string = false }
      else record s { start = extend ch s.start }

  unfoldable pub outside_step : ℕ → Scan → Scan
  unfolding close_brace succ pred is_zero
  outside_step ch s =
      if ch == b'"'
      then record s { start = extend ch s.start; in_string = true }
      else if ch == b'{'
      then record s {
        depth = succ s.depth;
        start = if is_zero s.depth then some (ch ∷ []) else extend ch s.start;
      }
      else if ch == b'}'
      then close_brace (pred s.depth) (extend ch s.start) s
      else record s { start = extend ch s.start }

  unfoldable pub scan_step : ℕ → Scan → Scan
  unfolding in_string_step outside_step
  scan_step ch s = if s.in_string then in_string_step ch s else outside_step ch s

  -- The loop over the characters.
  unfoldable pub scan : Str → Scan → Scan
  unfolding scan_step
  scan [] s = s
  scan (ch ∷ text) s = scan text (scan_step ch s)

  unfoldable pub best_effort_array :
      (List ℕ → Option Str) → List ℕ → Result SampleError (List Value)
  unfolding scan
  best_effort_array from_utf8 bytes =
      ok_or (from_utf8 bytes) (invalid (lit "json") (lit "non-utf8 input")) >>= λ s.
      some_records (scan s scan_start).out
