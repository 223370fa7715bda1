-- ===== src/Templates/Validate/Order.antt =====
-- The steps of an accepted template have different names and refer to earlier steps only.
use mathlib.Core.List.{append_assoc, append-nil}
use migration_platform.Prelude.{
  ◌≡◌, ◌↔◌, refl, ap, ◌∙◌, true, false, List, [], ◌∷◌, ◌++◌, map, all, ok, arith, >>=-eq-ok,
}
use migration_platform.Text.{Str}
use migration_platform.Templates.Types.{Step, RuleTemplate, execution_steps}
use migration_platform.Templates.Validate.{
  is_seen, step_refs, check_refs, check_step, check_steps, validate_step_references,
}

abbrev pub names_of : List Step → List Str
names_of steps = map (λ s. s.name) steps

-- A step that is not named like an earlier one, and that refers to earlier ones only.
abbrev pub Fits : List Str → Step → Type 0
Fits earlier s = (is_seen earlier s.name ≡ false) × (all (is_seen earlier) (step_refs s) ≡ true)

-- Every step fits behind those that stand before it.
abbrev pub InOrder : List Str → List Step → Type 0
InOrder seen steps =
    (before : List Step) (s : Step) (behind : List Step)
    → steps ≡ before ++ (s ∷ behind)
    → Fits (seen ++ names_of before) s

module _ (debug_text : Str → Str) where
  check_refs-eq-ok :
      (name : Str) (seen refs : List Str)
      → (check_refs debug_text name seen refs ≡ ok tt) ↔ (all (is_seen seen) refs ≡ true)
  unfolding check_refs
  check_refs-eq-ok name seen [] = ground arith
  check_refs-eq-ok name seen (r ∷ refs) = ground (arith, check_refs-eq-ok name seen refs)

  check_step-Fits :
      (seen : List Str) (s : Step) → (check_step debug_text seen s ≡ ok tt) ↔ Fits seen s
  unfolding check_step
  check_step-Fits seen s = ground (arith, check_refs-eq-ok s.name seen (step_refs s))

  check_steps-cons :
      (seen : List Str) (s : Step) (rest : List Step)
      → Fits seen s
      → check_steps debug_text seen (s ∷ rest) ≡ check_steps debug_text (seen ++ (s.name ∷ [])) rest
  unfolding check_steps
  check_steps-cons seen s rest f = rw ((check_step-Fits seen s).1 f)

  check_steps_sound :
      (seen : List Str) (before : List Step) (s : Step) (behind : List Step)
      → check_steps debug_text seen (before ++ (s ∷ behind)) ≡ ok tt
      → Fits (seen ++ names_of before) s
  unfolding check_steps
  check_steps_sound seen [] s behind h =
      let (u, e, h₁) = >>=-eq-ok (check_step debug_text seen s) _ h in
      rw (append-nil seen) ((check_step-Fits seen s).0 e)
  check_steps_sound seen (t ∷ before) s behind h =
      let (u, e, h₁) = >>=-eq-ok (check_step debug_text seen t) _ h in
      let fits = check_steps_sound (seen ++ (t.name ∷ [])) before s behind h₁ in
      rw (append_assoc seen (t.name ∷ []) (names_of before)) at fits

  check_steps_complete :
      (seen : List Str) (steps : List Step)
      → InOrder seen steps
      → check_steps debug_text seen steps ≡ ok tt
  unfolding check_steps
  check_steps_complete seen [] o = refl
  check_steps_complete seen (s ∷ rest) o =
      let first : Fits seen s = rw (append-nil seen) at (o [] s rest refl) in
      let later : InOrder (seen ++ (s.name ∷ [])) rest = λ before t behind e.
        rw (append_assoc seen (s.name ∷ []) (names_of before))
          (o (s ∷ before) t behind (ap (λ x. s ∷ x) e)) in
      check_steps-cons seen s rest first ∙ check_steps_complete (seen ++ (s.name ∷ [])) rest later

  -- The references of a template are accepted exactly if no step is named like an earlier one, and
  -- every step refers only to responses of steps that stand before it.
  pub validate_step_references-InOrder :
      (t : RuleTemplate)
      → (validate_step_references debug_text t ≡ ok tt) ↔ InOrder [] (execution_steps t)
  unfolding validate_step_references
  validate_step_references-InOrder t = (
    λ h before s behind e. check_steps_sound [] before s behind (rw e at h),
    check_steps_complete [] (execution_steps t),
  )
