-- ===== src/Sampling/Json/Grammar.antt =====
-- What stands in a JSON array, by its structure: single characters, strings with their escapes, and
-- braces that match.
use migration_platform.Prelude.{ℕ, ◌≡◌, Bool, true, not, ◌||◌, List, [], ◌∷◌, ◌++◌, ◌==◌}
use migration_platform.Text.{Str}

-- A character that is neither a quote nor a brace.
abbrev pub is_plain : ℕ → Bool
is_plain c = not ((c == b'"') || ((c == b'{') || (c == b'}')))

abbrev pub is_literal : ℕ → Bool
is_literal c = not ((c == b'"') || (c == b'\\'))

-- What stands between the quotes of a string.
pub data Quoted : Type 0 where
  close_quote : Quoted
  literal : (c : ℕ) → is_literal c ≡ true → Quoted → Quoted
  escaped : ℕ → Quoted → Quoted

-- A text whose braces match.
pub data Balanced : Type 0 where
  finish : Balanced
  plain : (c : ℕ) → is_plain c ≡ true → Balanced → Balanced
  quoted : Quoted → Balanced → Balanced
  braces : Balanced → Balanced → Balanced

abbrev pub quoted_text : Quoted → Str
quoted_text close_quote = b'"' ∷ []
quoted_text (literal c h q) = c ∷ quoted_text q
quoted_text (escaped c q) = b'\\' ∷ c ∷ quoted_text q

abbrev pub text_of : Balanced → Str
text_of finish = []
text_of (plain c h b) = c ∷ text_of b
text_of (quoted q b) = b'"' ∷ (quoted_text q ++ text_of b)
text_of (braces inner b) = b'{' ∷ (text_of inner ++ (b'}' ∷ text_of b))

abbrev pub object_text : Balanced → Str
object_text body = b'{' ∷ (text_of body ++ (b'}' ∷ []))

-- What stands in the array: a character between the objects, and an object.
pub data Part : Type 0 where
  between : (c : ℕ) → is_plain c ≡ true → Part
  complete : Balanced → Part

abbrev pub parts_text : List Part → Str
parts_text [] = []
parts_text (between c h ∷ ps) = c ∷ parts_text ps
parts_text (complete body ∷ ps) = object_text body ++ parts_text ps

abbrev pub objects : List Part → List Str
objects [] = []
objects (between c h ∷ ps) = objects ps
objects (complete body ∷ ps) = object_text body ∷ objects ps
