-- ===== src/Sources/Locations/Laws.antt =====
-- The namespaces of two organisations have no object in common, so that a location is accepted for
-- one organisation at most.
use mathlib.Core.List.{reverse, reverse-cons, append_assoc}
use migration_platform.Prelude.{
  ℕ, zero, suc, ◌+◌, ◌*◌, ◌-◌, ◌/◌, ◌%◌, ◌<◌, ◌≡◌, refl, sym, ap, ◌∙◌, ◌++◌, true, false, List, [],
  ◌∷◌, ok, arith, >>=-eq-ok, ensure-eq-ok, ◌==◌, if◌then◌else◌, ltb, inl, inr, Bool-cases,
}
use migration_platform.Json.{Value}
use migration_platform.Text.Parts.{trim_start_matches}
use migration_platform.Text.{Str, str_eq, lit, decimal, decimal_reversed, starts_with}
use migration_platform.Sources.Locations.{
  org_object_prefix, config_text, is_confined, check_bucket, check_location, check_watched_prefix,
  check_connector_locations,
}

-- The number that a text begins with, up to a slash.
abbrev scan : ℕ → Str → ℕ
scan m [] = m
scan m (c ∷ s) = let rest = scan (m * 10 + (c - b'0')) s in if c == b'/' then m else rest

starts_with-cons :
    (p : Str) (d : ℕ) (t : Str)
    → starts_with p (d ∷ t) ≡ true
    → (q : Str) × (p ≡ d ∷ q) × (starts_with q t ≡ true)
unfolding starts_with
starts_with-cons [] d t h = absurd (ground arith)
starts_with-cons (c ∷ p) d t h = (p, ground arith, ground arith)

scan-digit : (m c d : ℕ) (q : Str) → d < 10 → c ≡ b'0' + d → scan m (c ∷ q) ≡ scan (m * 10 + d) q
scan-digit m c d q h e =
    let fits : m * 10 + (c - b'0') ≡ m * 10 + d = omega (arith, e) in
    let other : (c == b'/') ≡ false = ground arith in rw (other, fits)

prefix-snoc :
    (p : Str) (d : ℕ) (ds tail : Str)
    → starts_with p (reverse (d ∷ ds) ++ tail) ≡ true
    → starts_with p (reverse ds ++ (d ∷ tail)) ≡ true
prefix-snoc p d ds tail s =
    let same : reverse (d ∷ ds) ++ tail ≡ reverse ds ++ (d ∷ tail) =
      ap (λ (x : Str). x ++ tail) (reverse-cons d ds) ∙ append_assoc (reverse ds) (d ∷ []) tail in
    rw (← same) s

-- A text that begins with the digits of a number is read as that number.
scan-decimal :
    (fuel n : ℕ) (p tail : Str)
    → n < fuel
    → starts_with p (reverse (decimal_reversed fuel n) ++ tail) ≡ true
    → (q : Str) × (starts_with q tail ≡ true) × (scan 0 p ≡ scan n q)
unfolding decimal_reversed
scan-decimal zero n p tail h s = absurd (omega (arith, h))
scan-decimal (suc fuel) n p tail h s = elim (Bool-cases (ltb n 10)) [
  | inl small ↦
      let s₁ = rw small at s in
      let (q, e, r) = starts_with-cons p (b'0' + n % 10) tail s₁ in
      let last : 0 * 10 + n % 10 ≡ n = ground arith in
      (q, r, ap (scan 0) e ∙ scan-digit 0 _ (n % 10) q (omega arith) refl ∙ ap (λ m. scan m q) last)
  | inr large ↦
      let ds = decimal_reversed fuel (n / 10) in
      let s₁ = rw large at s in
      let t = prefix-snoc p (b'0' + n % 10) ds tail s₁ in
      let (q, r, e) = scan-decimal fuel (n / 10) p ((b'0' + n % 10) ∷ tail) (ground arith) t in
      let (q₁, e₁, r₁) = starts_with-cons q (b'0' + n % 10) tail r in
      let whole : n / 10 * 10 + n % 10 ≡ n = omega arith in
      (
        q₁,
        r₁,
        e
            ∙ ap (scan (n / 10)) e₁
            ∙ scan-digit (n / 10) _ (n % 10) q₁ (omega arith) refl
            ∙ ap (λ m. scan m q₁) whole,
      )
]

scan-org : (org : ℕ) (p : Str) → starts_with p (decimal org ++ lit "/") ≡ true → scan 0 p ≡ org
unfolding decimal
scan-org org p s =
    let (q, r, e) = scan-decimal (suc org) org p (lit "/") (omega arith) s in
    let (q₁, e₁, r₁) = starts_with-cons q b'/' [] r in e ∙ ap (scan org) e₁

starts_with-append :
    (p s t : Str)
    → starts_with p (s ++ t) ≡ true
    → (q : Str) × (p ≡ s ++ q) × (starts_with q t ≡ true)
starts_with-append p [] t h = (p, refl, h)
starts_with-append p (d ∷ s) t h =
    let (q, e, r) = starts_with-cons p d (s ++ t) h in
    let (q₁, e₁, r₁) = starts_with-append q s t r in (q₁, cc (e, e₁), r₁)

-- A text begins with the prefix of one organisation at most.
pub org_object_prefix_unique :
    (p : Str) (a b : ℕ)
    → starts_with p (org_object_prefix a) ≡ true
    → starts_with p (org_object_prefix b) ≡ true
    → a ≡ b
unfolding org_object_prefix
org_object_prefix_unique p a b h k =
    let (q, e, r) = starts_with-append p (lit "orgs/") (decimal a ++ lit "/") h in
    let (q₁, e₁, r₁) = starts_with-append p (lit "orgs/") (decimal b ++ lit "/") k in
    let same : q ≡ q₁ = cc in sym (scan-org a q r) ∙ ap (scan 0) same ∙ scan-org b q₁ r₁

module _ (debug_text : Str → Str) where
  is_confined-prefix :
      (prefix : Str) (org : ℕ)
      → is_confined debug_text prefix org ≡ true
      → starts_with (trim_start_matches b'/' prefix) (org_object_prefix org) ≡ true
  unfolding is_confined
  is_confined-prefix prefix org h = ground arith

  check_location-is_confined :
      (bucket prefix label : Str) (org : ℕ) (allowed : List Str)
      → check_location debug_text bucket prefix label org allowed ≡ ok tt
      → is_confined debug_text prefix org ≡ true
  unfolding check_location
  check_location-is_confined bucket prefix label org allowed h =
      let (u, e, h₁) = >>=-eq-ok (check_bucket debug_text bucket allowed) _ h in
      ensure-eq-ok (is_confined debug_text prefix org) _ h₁

  -- A watched prefix is accepted for one organisation at most, whatever buckets are allowed.
  pub check_watched_prefix_unique :
      (cfg : Value) (a b : ℕ) (allowed others : List Str)
      → check_connector_locations debug_text (lit "watched_prefix") cfg a allowed ≡ ok tt
      → check_connector_locations debug_text (lit "watched_prefix") cfg b others ≡ ok tt
      → a ≡ b
  unfolding check_connector_locations check_watched_prefix str_eq
  check_watched_prefix_unique cfg a b allowed others h k =
      let prefix = config_text (lit "prefix") cfg in
      org_object_prefix_unique (trim_start_matches b'/' prefix) a b
        (is_confined-prefix prefix a
          (check_location-is_confined _ prefix (lit "prefix") a allowed h))
        (is_confined-prefix prefix b
          (check_location-is_confined _ prefix (lit "prefix") b others k))
