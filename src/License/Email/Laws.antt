-- ===== src/License/Email/Laws.antt =====
-- An accepted address is normalised, and is an address.
use migration_platform.Prelude.{
  ℕ, ◌≤◌, ◌≡◌, ◌≢◌, refl, sym, ap, ◌⊎◌, inl, inr, ◌∙◌, true, false, not, ◌||◌, [], ◌∷◌, ◌++◌,
  Option, none, some, ok, ensure, ok_or, ok_or-eq-ok, ensure-eq-ok, >>=-eq-ok, is_empty, any, arith,
  ltb, ◌==◌,
}
use migration_platform.Text.{Str, trim, to_ascii_lowercase, len, rsplit_once, extend_split}
use migration_platform.Text.Laws.{is_blank, to_ascii_lowercase_idem, trim-solid}
use migration_platform.License.Email.{has_char, is_hostname, check_email, validate_trial_email}

extend_split-none :
    (c x : ℕ) (s : Str) (o : Option (Str × Str))
    → extend_split c x s o ≡ none
    → (o ≡ none) × ((x == c) ≡ false)
extend_split-none c x s none h = ground arith
extend_split-none c x s (some (a, b)) h = cc

rsplit_once-none : (c : ℕ) (s : Str) → rsplit_once c s ≡ none → has_char c s ≡ false
unfolding rsplit_once has_char
rsplit_once-none c [] h = refl
rsplit_once-none c (x ∷ s) h =
    let (o, e) = extend_split-none c x s (rsplit_once c s) h in
    ground (arith, rsplit_once-none c s o)

extend_split-some :
    (c x : ℕ) (s a b : Str) (o : Option (Str × Str))
    → extend_split c x s o ≡ some (a, b)
    → ((o ≡ none) × (x ≡ c) × (a ≡ []) × (b ≡ s)) ⊎ ((t : Str) × (o ≡ some (t, b)) × (a ≡ x ∷ t))
extend_split-some c x s a b none h = inl (ground arith)
extend_split-some c x s a b (some (t, b')) h = inr (t, ground arith, ground arith)

pub rsplit_once-eq :
    (c : ℕ) (s a b : Str)
    → rsplit_once c s ≡ some (a, b)
    → (s ≡ a ++ c ∷ b) × (has_char c b ≡ false)
unfolding rsplit_once
rsplit_once-eq c [] a b h = cc
rsplit_once-eq c (x ∷ s) a b h = elim (extend_split-some c x s a b (rsplit_once c s) h) [
  | inl (o, e, ea, eb) ↦ (cc (e, ea, eb), ap (has_char c) eb ∙ rsplit_once-none c s o)
  | inr (t, o, ea) ↦
      let (p, q) = rsplit_once-eq c s t b o in
      (ap (λ l. x ∷ l) p ∙ ap (λ l. l ++ c ∷ b) (sym ea), q)
]

-- What the check has found of a text that it accepts.
check_email-parts :
    (e : Str)
    → check_email e ≡ ok tt
    → (local : Str) × (domain : Str) × (rsplit_once b'@' e ≡ some (local, domain))
      × (not (ltb (len e) 6 || ltb 254 (len e)) ≡ true)
      × (not (any is_blank e) ≡ true)
      × (not (is_empty local || is_empty domain || has_char b'@' local) ≡ true)
      × (is_hostname domain ≡ true)
unfolding check_email
check_email-parts e h =
    let (u₁, len_ok, h₁) = >>=-eq-ok (ensure (not (ltb (len e) 6 || ltb 254 (len e))) _) _ h in
    let (u₂, solid, h₂) = >>=-eq-ok (ensure (not (any is_blank e)) _) _ h₁ in
    let ((local, domain), parts, h₃) = >>=-eq-ok (ok_or (rsplit_once b'@' e) _) _ h₂ in
    let (u₃, full, host) =
      >>=-eq-ok (ensure (not (is_empty local || is_empty domain || has_char b'@' local)) _) _ h₃ in
    (
      local,
      domain,
      ok_or-eq-ok _ _ parts,
      ensure-eq-ok _ _ len_ok,
      ensure-eq-ok _ _ solid,
      ensure-eq-ok _ _ full,
      ensure-eq-ok _ _ host,
    )

validate_trial_email-parts :
    (raw email : Str)
    → validate_trial_email raw ≡ ok email
    → (check_email email ≡ ok tt) × (to_ascii_lowercase email ≡ email)
unfolding validate_trial_email
validate_trial_email-parts raw email h =
    let (done, checked, e) = >>=-eq-ok (check_email (to_ascii_lowercase (trim raw))) _ h in
    ground (arith, to_ascii_lowercase_idem (trim raw))

-- An accepted address passes the check unchanged: it is trimmed and in lower case already.
pub validate_trial_email_idem :
    (raw email : Str) → validate_trial_email raw ≡ ok email → validate_trial_email email ≡ ok email
unfolding validate_trial_email
validate_trial_email_idem raw email h =
    let (checked, lower) = validate_trial_email-parts raw email h in
    let parts = check_email-parts email checked in
    let solid : any is_blank email ≡ false = ground (arith, parts.4) in
    cc (trim-solid email solid, checked, lower)

-- An accepted address has 6 to 254 bytes and exactly one `@`, with a part before it and a dotted
-- host name behind it.
pub validate_trial_email_shape :
    (raw email : Str)
    → validate_trial_email raw ≡ ok email
    → (local : Str) × (domain : Str) × (email ≡ local ++ b'@' ∷ domain)
      × (local ≢ [])
      × (has_char b'@' local ≡ false)
      × (has_char b'@' domain ≡ false)
      × (is_hostname domain ≡ true)
      × (6 ≤ len email)
      × (len email ≤ 254)
validate_trial_email_shape raw email h =
    let (checked, lower) = validate_trial_email-parts raw email h in
    let (local, domain, at, size, solid, full, host) = check_email-parts email checked in
    let (e, once) = rsplit_once-eq b'@' email local domain at in
    (local, domain, e, ground arith, ground arith, once, host, ground arith, ground arith)
