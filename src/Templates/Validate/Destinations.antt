-- ===== src/Templates/Validate/Destinations.antt =====
-- The destinations of an accepted template are those that the runtime can execute.
use migration_platform.Prelude.{
  ◌≡◌, ◌≢◌, ◌↔◌, refl, true, Option, none, some, is_some, List, [], ◌∷◌, All, ok, arith, >>=-eq-ok,
}
use migration_platform.Text.{Str}
use migration_platform.Templates.Types as Types
use migration_platform.Templates.Types.{
  AuthType, bearer, basic, api_key, oauth2_client, Auth, DeliveryMode, idempotent, lookup, manual,
  Destination, Step, RuleTemplate, execution_steps,
}
use migration_platform.Templates.Validate.{
  text_or_blank, check_auth, check_mode, check_delivery, check_destinations, validate_destinations,
}

-- Credentials that the runtime resolves: a kind that it supports, and a secret by name.
abbrev pub Resolvable : Option Auth → Type 0
Resolvable none = Unit
Resolvable (some a) = (a.auth_type ≢ oauth2_client) × (text_or_blank a.secret_ref ≢ [])

-- A policy that is complete: a header to repeat a call under in the idempotent mode, and a lookup in
-- the lookup mode and in no other.
abbrev pub Complete : Destination → Option Types.Delivery → Type 0
Complete d none = Unit
Complete d (some p) =
    (p.mode ≡ idempotent → text_or_blank d.idempotency_header ≢ [])
    × ((is_some p.lookup_by ≡ true) ↔ (p.mode ≡ lookup))

abbrev pub IsExecutable : Step → Type 0
IsExecutable s = Resolvable s.destination.auth × Complete s.destination s.destination.delivery

module _ (debug_text : Str → Str) where
  check_auth-Resolvable :
      (s : Step) (o : Option Auth) → (check_auth debug_text s o ≡ ok tt) ↔ Resolvable o
  unfolding check_auth
  check_auth-Resolvable s none = ground arith
  check_auth-Resolvable s (some a) = ground arith

  check_mode-Complete :
      (s : Step) (m : DeliveryMode) (p : Types.Delivery)
      → p.mode ≡ m
      → (check_mode debug_text s m p ≡ ok tt) ↔ Complete s.destination (some p)
  unfolding check_mode
  check_mode-Complete s idempotent p e = ground arith
  check_mode-Complete s lookup p e = ground arith
  check_mode-Complete s manual p e = ground arith

  check_delivery-Complete :
      (s : Step) (o : Option Types.Delivery)
      → (check_delivery debug_text s o ≡ ok tt) ↔ Complete s.destination o
  unfolding check_delivery
  check_delivery-Complete s none = ground arith
  check_delivery-Complete s (some p) = check_mode-Complete s p.mode p refl

  check_destinations-IsExecutable :
      (steps : List Step) → (check_destinations debug_text steps ≡ ok tt) ↔ All IsExecutable steps
  unfolding check_destinations
  check_destinations-IsExecutable [] = ((λ h. tt), (λ a. refl))
  check_destinations-IsExecutable (s ∷ rest) = (
    λ h.
        let (u, e, h₁) = >>=-eq-ok (check_auth debug_text s s.destination.auth) _ h in
        let (w, d, h₂) = >>=-eq-ok (check_delivery debug_text s s.destination.delivery) _ h₁ in
        (
          (
            (check_auth-Resolvable s s.destination.auth).0 e,
            (check_delivery-Complete s s.destination.delivery).0 d,
          ),
          (check_destinations-IsExecutable rest).0 h₂,
        ),
    λ a. rw (
      (check_auth-Resolvable s s.destination.auth).1 a.0.0,
      (check_delivery-Complete s s.destination.delivery).1 a.0.1,
      (check_destinations-IsExecutable rest).1 a.1,
    ),
  )

  -- The destinations of a template are accepted exactly if the runtime can execute every step: its
  -- credentials are of a supported kind with a secret, and its delivery policy is complete.
  pub validate_destinations-IsExecutable :
      (t : RuleTemplate)
      → (validate_destinations debug_text t ≡ ok tt) ↔ All IsExecutable (execution_steps t)
  unfolding validate_destinations
  validate_destinations-IsExecutable t = check_destinations-IsExecutable (execution_steps t)
