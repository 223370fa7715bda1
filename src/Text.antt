-- ===== src/Text.antt =====
-- Text as the list of its code points, with the parts of Rust's `str` that the API uses.
pub mod Laws
pub mod Parts
use Prim.Native.Char.{code}
use mathlib.Core.List.{reverse}
use migration_platform.Prelude.{
  ◌++◌, zero, suc, ◌/◌, ◌%◌, not, is_empty, Option, none, some, ℕ, ◌+◌, ◌≡◌, refl, ◌↔◌, Bool, true,
  false, ◌&&◌, ◌||◌, String, List, [], ◌∷◌, map, arith, ltb, leb, ◌==◌, if◌then◌else◌,
}

abbrev pub Str : Type 0
Str = List ℕ

-- A literal of the source.
abbrev pub lit : String → Str
lit String.[] = []
lit (String.◌∷◌ c s) = code c ∷ lit s

unfoldable pub str_eq : Str → Str → Bool
str_eq [] [] = true
str_eq [] (y ∷ ys) = false
str_eq (x ∷ xs) [] = false
str_eq (x ∷ xs) (y ∷ ys) = (x == y) && str_eq xs ys

pub str_eq_iff : (a b : Str) → (str_eq a b ≡ true) ↔ (a ≡ b)
unfolding str_eq
str_eq_iff [] [] = ground arith
str_eq_iff [] (y ∷ ys) = ground arith
str_eq_iff (x ∷ xs) [] = ground arith
str_eq_iff (x ∷ xs) (y ∷ ys) = ground (arith, str_eq_iff xs ys)

pub str_eq_refl : (a : Str) → str_eq a a ≡ true
str_eq_refl a = (str_eq_iff a a).1 refl

-- `char::is_whitespace`: the code points with the property White_Space.
unfoldable pub is_whitespace : ℕ → Bool
is_whitespace c =
    (leb 9 c && leb c 13)
    || (c == 32)
    || (c == 0x85)
    || (c == 0xa0)
    || (c == 0x1680)
    || (leb 0x2000 c && leb c 0x200a)
    || (c == 0x2028)
    || (c == 0x2029)
    || (c == 0x202f)
    || (c == 0x205f)
    || (c == 0x3000)

-- `char::is_control`: the general category Cc.
unfoldable pub is_control : ℕ → Bool
is_control c = leb c 31 || (leb 127 c && leb c 159)

unfoldable pub to_ascii_lowercase_char : ℕ → ℕ
to_ascii_lowercase_char c = if leb b'A' c && leb c b'Z' then c + 32 else c

unfoldable pub to_ascii_lowercase : Str → Str
unfolding to_ascii_lowercase_char
to_ascii_lowercase s = map to_ascii_lowercase_char s

unfoldable pub is_ascii_digit : ℕ → Bool
is_ascii_digit c = leb b'0' c && leb c b'9'

unfoldable pub is_ascii_alphanumeric : ℕ → Bool
unfolding is_ascii_digit
is_ascii_alphanumeric c =
    is_ascii_digit c || (leb b'a' c && leb c b'z') || (leb b'A' c && leb c b'Z')

unfoldable pub is_ascii_hexdigit : ℕ → Bool
unfolding is_ascii_digit
is_ascii_hexdigit c = is_ascii_digit c || (leb b'a' c && leb c b'f') || (leb b'A' c && leb c b'F')

-- The bytes of a code point in UTF-8, and `str::len`.
abbrev pub len_utf8 : ℕ → ℕ
len_utf8 c = if ltb c 0x80 then 1 else if ltb c 0x800 then 2 else if ltb c 0x10000 then 3 else 4

unfoldable pub len : Str → ℕ
len [] = 0
len (c ∷ s) = len_utf8 c + len s

unfoldable pub trim_start : Str → Str
unfolding is_whitespace
trim_start [] = []
trim_start (c ∷ s) = let rest = trim_start s in if is_whitespace c then rest else c ∷ s

-- One more character in front of what `trim_end` has kept.
unfoldable pub trim_end_cons : ℕ → Str → Str
unfolding is_whitespace
trim_end_cons c [] = if is_whitespace c then [] else c ∷ []
trim_end_cons c (d ∷ s) = c ∷ d ∷ s

unfoldable pub trim_end : Str → Str
unfolding trim_end_cons
trim_end [] = []
trim_end (c ∷ s) = trim_end_cons c (trim_end s)

unfoldable pub trim : Str → Str
unfolding trim_start trim_end
trim s = trim_end (trim_start s)

-- One more character in front of what `trim_end_matches` has kept.
unfoldable pub trim_end_matches_cons : ℕ → ℕ → Str → Str
trim_end_matches_cons p c [] = if c == p then [] else c ∷ []
trim_end_matches_cons p c (d ∷ s) = c ∷ d ∷ s

-- `str::trim_end_matches` with a character
unfoldable pub trim_end_matches : ℕ → Str → Str
unfolding trim_end_matches_cons
trim_end_matches p [] = []
trim_end_matches p (c ∷ s) = trim_end_matches_cons p c (trim_end_matches p s)

-- `Option::filter`, and the filters of the API on text.
abbrev pub filter_opt {ℓ} : {A : Type ℓ} → (A → Bool) → Option A → Option A
filter_opt p none = none
filter_opt p (some a) = if p a then some a else none

abbrev pub nonempty : Str → Bool
nonempty s = not (is_empty s)

abbrev pub nonblank : Str → Bool
nonblank s = nonempty (trim s)

-- The decimal digits of a number, the last one first; as many rounds as the number has units are
-- enough, since each divides by ten.
unfoldable pub decimal_reversed : ℕ → ℕ → Str
decimal_reversed zero n = []
decimal_reversed (suc fuel) n =
    let rest = decimal_reversed fuel (n / 10) in (b'0' + n % 10) ∷ (if ltb n 10 then [] else rest)

-- `Display` of an unsigned integer
unfoldable pub decimal : ℕ → Str
unfolding decimal_reversed
decimal n = reverse (decimal_reversed (suc n) n)

decimal_sample : decimal 402 ≡ lit "402"
unfolding decimal
decimal_sample = refl

-- `str::split` with a character: there is one more part than separators.
abbrev cons_part : ℕ → List Str → List Str
cons_part x [] = (x ∷ []) ∷ []
cons_part x (p ∷ ps) = (x ∷ p) ∷ ps

unfoldable pub split : ℕ → Str → List Str
split c [] = [] ∷ []
split c (x ∷ s) = let rest = split c s in if x == c then [] ∷ rest else cons_part x rest

-- `str::rsplit_once` with a character: the parts around its last occurrence.
abbrev pub extend_split : ℕ → ℕ → Str → Option (Str × Str) → Option (Str × Str)
extend_split c x s (some (a, b)) = some (x ∷ a, b)
extend_split c x s none = if x == c then some ([], s) else none

unfoldable pub rsplit_once : ℕ → Str → Option (Str × Str)
rsplit_once c [] = none
rsplit_once c (x ∷ s) = extend_split c x s (rsplit_once c s)

-- `str::strip_prefix`
unfoldable pub strip_prefix : Str → Str → Option Str
strip_prefix [] s = some s
strip_prefix (d ∷ p) [] = none
strip_prefix (d ∷ p) (c ∷ s) = let rest = strip_prefix p s in if c == d then rest else none

-- The UTF-8 bytes of a text.
abbrev pub utf8 : ℕ → Str
utf8 c =
    if ltb c 0x80
    then c ∷ []
    else if ltb c 0x800
    then (0xc0 + c / 64) ∷ (0x80 + c % 64) ∷ []
    else if ltb c 0x10000
    then (0xe0 + c / 4096) ∷ (0x80 + c / 64 % 64) ∷ (0x80 + c % 64) ∷ []
    else (0xf0 + c / 262144) ∷ (0x80 + c / 4096 % 64) ∷ (0x80 + c / 64 % 64) ∷ (0x80 + c % 64) ∷ []

unfoldable pub as_bytes : Str → List ℕ
as_bytes [] = []
as_bytes (c ∷ s) = utf8 c ++ as_bytes s

-- Whether the text begins with another, and whether it has it anywhere (`str::contains`).
unfoldable pub starts_with : Str → Str → Bool
starts_with s [] = true
starts_with [] (d ∷ p) = false
starts_with (c ∷ s) (d ∷ p) = (c == d) && starts_with s p

unfoldable pub contains : Str → Str → Bool
unfolding starts_with
contains [] p = starts_with [] p
contains (c ∷ s) p = starts_with (c ∷ s) p || contains s p

trim_sample : trim (lit "  a b ") ≡ lit "a b"
unfolding trim
trim_sample = refl
