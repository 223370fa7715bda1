-- ===== src/License/Email.antt =====
-- apps/api/src/security/license.rs: the check of the contact address, shared with the license
-- server. The errors are the texts of the source.
pub mod Laws
use migration_platform.Prelude.{
  ℕ, Bool, true, false, not, ◌&&◌, ◌||◌, List, [], ◌∷◌, Option, none, some, Result, ok, err, ◌>>=◌,
  ◌>>◌, ensure, ok_or, is_empty, length, all, any, ltb, ◌==◌,
}
use migration_platform.Text.{
  Str, lit, trim, to_ascii_lowercase, len, is_whitespace, is_control, is_ascii_alphanumeric,
  rsplit_once, split,
}

unfoldable pub has_char : ℕ → Str → Bool
has_char c s = any (λ x. x == c) s

unfoldable pub is_label : Str → Bool
is_label l = not (is_empty l) && all (λ c. is_ascii_alphanumeric c || (c == b'-')) l

unfoldable pub is_hostname : Str → Bool
unfolding is_label
is_hostname domain =
    let labels = split b'.' domain in not (ltb (length labels) 2) && all is_label labels

-- The tests of `validate_trial_email` on the trimmed text in lower case.
unfoldable pub check_email : Str → Result Str (Unit {0})
unfolding has_char
check_email email = do
  ensure (not (ltb (len email) 6 || ltb 254 (len email)))
      (lit "email must be between 6 and 254 characters")
  ensure (not (any (λ c. is_whitespace c || is_control c) email))
      (lit "email must not contain whitespace")
  (local, domain) ← ok_or (rsplit_once b'@' email) (lit "email must contain '@'")
  ensure (not (is_empty local || is_empty domain || has_char b'@' local))
      (lit "email has an empty local part or domain")
  ensure (is_hostname domain) (lit "email domain must be a dotted hostname")

unfoldable pub validate_trial_email : Str → Result Str Str
validate_trial_email raw = do let email = to_ascii_lowercase (trim raw); check_email email; ok email
