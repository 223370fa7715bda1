-- ===== src/Schedules/Spec/Laws.antt =====
-- The stored times of a schedule are accepted again, and an update tells the bridge no time zone.
use migration_platform.Prelude.{
  ℕ, ◌≡◌, refl, ap, ◌∙◌, Bool, true, false, Option, none, some, is_some, [], ◌∷◌, ok, arith,
  >>=-eq-ok, ensure-eq-ok, Bool-cases, Option-cases, inl, inr, ensure, ok_or,
}
use migration_platform.Text.{
  Str, lit, str_eq, trim, trim_start, trim_end, trim_end_cons, is_whitespace,
}
use migration_platform.Json.{Value, string, object, end, field, get, get_field, as_str}
use migration_platform.Schedules.Spec.{
  cron_for_validation, normalise_cron, normalise_every, normalise_spec, set_field, text_at,
  merge_spec, update_body,
}

trim_start-end_cons :
    (c : ℕ) (s : Str) → is_whitespace c ≡ false → trim_start (trim_end_cons c s) ≡ trim_end_cons c s
unfolding trim_start trim_end_cons
trim_start-end_cons c [] h = ground arith
trim_start-end_cons c (d ∷ s) h = ground arith

trim_end-end_cons :
    (c : ℕ) (s : Str) → trim_end s ≡ s → trim_end (trim_end_cons c s) ≡ trim_end_cons c s
unfolding trim_end trim_end_cons
trim_end-end_cons c [] h = ground arith
trim_end-end_cons c (d ∷ s) h = ground arith

trim_end_idem : (s : Str) → trim_end (trim_end s) ≡ trim_end s
unfolding trim_end
trim_end_idem [] = refl
trim_end_idem (c ∷ s) = trim_end-end_cons c (trim_end s) (trim_end_idem s)

trim_start-trim : (s : Str) → trim_start (trim s) ≡ trim s
unfolding trim trim_start trim_end
trim_start-trim [] = refl
trim_start-trim (c ∷ s) = elim (Bool-cases (is_whitespace c)) [
  | inl blank ↦ rw blank (trim_start-trim s)
  | inr solid ↦ rw solid (trim_start-end_cons c (trim_end s) solid)
]

pub trim_idem : (s : Str) → trim (trim s) ≡ trim s
unfolding trim
trim_idem s = ap trim_end (unfold trim in trim_start-trim s) ∙ trim_end_idem (trim_start s)

abbrev stored_cron : Str → Value
stored_cron s = object (field (lit "cron") (string s) end)

abbrev stored_every : Str → Value
stored_every s = object (field (lit "every") (string s) end)

module _ (cron_parses duration_parses : Str → Bool) where
  cron-again :
      (s p : Str)
      → cron_for_validation (trim s) ≡ ok p
      → cron_parses p ≡ true
      → normalise_spec cron_parses duration_parses (stored_cron (trim s))
        ≡ ok (stored_cron (trim s))
  unfolding normalise_spec normalise_cron get get_field str_eq as_str
  cron-again s p e h = rw (trim_idem s, e, h) refl

  every-again :
      (s : Str)
      → duration_parses s ≡ true
      → normalise_spec cron_parses duration_parses (stored_every s) ≡ ok (stored_every s)
  unfolding normalise_spec normalise_every get get_field str_eq as_str
  every-again s h = rw h refl

  cron_idem :
      (v w : Value)
      → normalise_cron cron_parses duration_parses v ≡ ok w
      → normalise_spec cron_parses duration_parses w ≡ ok w
  unfolding normalise_cron
  cron_idem v w h =
      let (cron, e, h₁) = >>=-eq-ok (ok_or (text_at (lit "cron") v) (lit "cron missing")) _ h in
      let (p, e₁, h₂) = >>=-eq-ok (cron_for_validation (trim cron)) _ h₁ in
      let (u, e₂, h₃) = >>=-eq-ok (ensure (cron_parses p) (lit "invalid cron")) _ h₂ in
      let same : stored_cron (trim cron) ≡ w = ground arith in
      rw (← same) (cron-again cron p e₁ (ensure-eq-ok (cron_parses p) (lit "invalid cron") e₂))

  every_idem :
      (o : Option Str) (w : Value)
      → normalise_every cron_parses duration_parses o ≡ ok w
      → normalise_spec cron_parses duration_parses w ≡ ok w
  unfolding normalise_every
  every_idem none w h = cc h
  every_idem (some s) w h =
      let (u, e, h₁) = >>=-eq-ok (ensure (duration_parses s) (lit "invalid interval")) _ h in
      let same : stored_every s ≡ w = ground arith in
      rw (← same) (every-again s (ensure-eq-ok (duration_parses s) (lit "invalid interval") e))

  -- What is stored for a schedule is accepted again, and stays as it is.
  pub normalise_spec_idem :
      (v w : Value)
      → normalise_spec cron_parses duration_parses v ≡ ok w
      → normalise_spec cron_parses duration_parses w ≡ ok w
  unfolding normalise_spec
  normalise_spec_idem v w h = elim (Bool-cases (is_some (get (lit "cron") v))) [
    | inl e ↦ cron_idem v w (rw e at h)
    | inr e ↦ every_idem (text_at (lit "every") v) w (rw e at h)
  ]

-- The request that gives a schedule other times names the schedule and the times, and no time zone.
pub update_body-timezone :
    (id : Str) (spec input : Value) → get_field (lit "timezone") (update_body id spec input) ≡ none
unfolding update_body merge_spec set_field get_field str_eq
update_body-timezone id spec input = elim (Option-cases (text_at (lit "cron") spec)) [
  | inl no_cron ↦ elim (Option-cases (text_at (lit "every") spec)) [
    | inl no_every ↦ rw (no_cron, no_every) refl
    | inr (s, every) ↦ rw (no_cron, every) refl
  ]
  | inr (s, cron) ↦ elim (Option-cases (text_at (lit "every") spec)) [
    | inl no_every ↦ rw (cron, no_every) refl
    | inr (t, every) ↦ rw (cron, every) refl
  ]
]
