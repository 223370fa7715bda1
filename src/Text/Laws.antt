-- ===== src/Text/Laws.antt =====
-- Lower case and trimming settle after one round, and what the UTF-8 encoder gives are bytes.
use migration_platform.Prelude.{
  ℕ, ◌<◌, ◌≡◌, refl, ap, ◌∙◌, Bool, false, ◌||◌, List, [], ◌∷◌, any, arith, All, All-append,
}
use migration_platform.Text.{
  Str, trim, trim_start, trim_end, to_ascii_lowercase, to_ascii_lowercase_char, is_whitespace,
  is_control, as_bytes, utf8,
}

abbrev pub is_blank : ℕ → Bool
is_blank c = is_whitespace c || is_control c

lowercase_char_idem :
    (c : ℕ) → to_ascii_lowercase_char (to_ascii_lowercase_char c) ≡ to_ascii_lowercase_char c
unfolding to_ascii_lowercase_char
lowercase_char_idem c = ground arith

pub to_ascii_lowercase_idem :
    (s : Str) → to_ascii_lowercase (to_ascii_lowercase s) ≡ to_ascii_lowercase s
unfolding to_ascii_lowercase
to_ascii_lowercase_idem [] = refl
to_ascii_lowercase_idem (c ∷ s) = cc (lowercase_char_idem c, to_ascii_lowercase_idem s)

trim_start-solid : (s : Str) → any is_blank s ≡ false → trim_start s ≡ s
unfolding trim_start
trim_start-solid [] h = refl
trim_start-solid (c ∷ s) h = ground arith

trim_end-solid : (s : Str) → any is_blank s ≡ false → trim_end s ≡ s
unfolding trim_end
trim_end-solid [] h = refl
trim_end-solid (c ∷ s) h = ground (arith, trim_end-solid s)

pub trim-solid : (s : Str) → any is_blank s ≡ false → trim s ≡ s
unfolding trim
trim-solid s h = ap trim_end (trim_start-solid s h) ∙ trim_end-solid s h

-- Code points, and bytes.
abbrev pub IsText : Str → Type 0
IsText = All (λ c. c < 0x110000)

abbrev pub IsBytes : List ℕ → Type 0
IsBytes = All (λ b. b < 256)

utf8-IsBytes : (c : ℕ) → c < 0x110000 → IsBytes (utf8 c)
utf8-IsBytes c h = ground arith

pub as_bytes-IsBytes : (s : Str) → IsText s → IsBytes (as_bytes s)
unfolding as_bytes
as_bytes-IsBytes [] h = tt
as_bytes-IsBytes (c ∷ s) h =
    All-append (λ b. b < 256) (utf8 c) (as_bytes s) (utf8-IsBytes c h.0) (as_bytes-IsBytes s h.1)
