-- ===== src/Text/Parts.antt =====
-- More of Rust's `str`: slashes at both ends, endings, the last part, and joining.
use migration_platform.Prelude.{Bool, ◌||◌, List, [], ◌∷◌, ◌++◌, ℕ, ◌==◌, if◌then◌else◌}
use migration_platform.Text.{Str, str_eq, split, trim_end_matches}

-- `str::trim_start_matches` with a character
unfoldable pub trim_start_matches : ℕ → Str → Str
trim_start_matches p [] = []
trim_start_matches p (c ∷ s) = let rest = trim_start_matches p s in if c == p then rest else c ∷ s

-- `str::trim_matches` with a character
unfoldable pub trim_matches : ℕ → Str → Str
unfolding trim_start_matches
trim_matches p s = trim_end_matches p (trim_start_matches p s)

unfoldable pub ends_with : Str → Str → Bool
ends_with [] p = str_eq [] p
ends_with (c ∷ s) p = str_eq (c ∷ s) p || ends_with s p

abbrev pub last_or : Str → List Str → Str
last_or d [] = d
last_or d (p ∷ ps) = last_or p ps

-- `rsplit(c).next()`: the part behind the last separator.
unfoldable pub last_part : ℕ → Str → Str
last_part c s = last_or s (split c s)

-- `join(", ")` and the like
unfoldable pub join : Str → List Str → Str
join sep [] = []
join sep (p ∷ []) = p
join sep (p ∷ q ∷ ps) = p ++ (sep ++ join sep (q ∷ ps))
