-- ===== src/Int.antt =====
-- Signed integers over the native numbers, and the parser of `str::parse::<i64>`.
use migration_platform.Prelude.{
  ℕ, ◌+◌, ◌-◌, ◌*◌, ◌^◌, ◌≡◌, refl, Bool, false, Option, none, some, [], ◌∷◌, leb, ltb, ◌==◌,
  if◌then◌else◌,
}
use migration_platform.Text.{Str, lit, is_ascii_digit}

-- `negsuc n` is -(n + 1).
pub data ℤ : Type 0 where
  pos : ℕ → ℤ
  negsuc : ℕ → ℤ

-- -n
abbrev pub neg : ℕ → ℤ
neg n = if n == 0 then pos 0 else negsuc (n - 1)

abbrev pub is_positive : ℤ → Bool
is_positive (pos n) = ltb 0 n
is_positive (negsuc n) = false

-- The number that the digits spell, after those already read.
unfoldable pub digits_from : ℕ → Str → Option ℕ
unfolding is_ascii_digit
digits_from acc [] = some acc
digits_from acc (c ∷ s) =
    let rest = digits_from (acc * 10 + (c - b'0')) s in if is_ascii_digit c then rest else none

-- At least one digit is wanted.
unfoldable pub digits : Str → Option ℕ
unfolding digits_from
digits [] = none
digits (c ∷ s) = digits_from 0 (c ∷ s)

abbrev below : ℕ → (ℕ → ℤ) → Option ℕ → Option ℤ
below limit f none = none
below limit f (some n) = if leb n limit then some (f n) else none

unfoldable pub parse_i64 : Str → Option ℤ
unfolding digits
parse_i64 [] = none
parse_i64 (c ∷ s) =
    if c == b'-'
    then below (2 ^ 63) neg (digits s)
    else if c == b'+'
    then below (2 ^ 63 - 1) pos (digits s)
    else below (2 ^ 63 - 1) pos (digits (c ∷ s))

parse_i64_samples :
    (parse_i64 (lit "-42") ≡ some (negsuc 41))
    × (parse_i64 (lit "+7") ≡ some (pos 7))
    × (parse_i64 (lit "9223372036854775808") ≡ none)
    × (parse_i64 (lit "-") ≡ none)
unfolding parse_i64
parse_i64_samples = (refl, refl, refl, refl)
