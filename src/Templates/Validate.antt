-- ===== src/Templates/Validate.antt =====
-- apps/api/src/routes/templates.rs: what is checked of a template beyond the JSON schema. The
-- schema's validator, the deserializer that serde derives and the text that `Debug` prints are
-- arguments.
pub mod Order
pub mod Destinations
use migration_platform.Prelude.{
  ◌++◌, Bool, true, false, not, ◌&&◌, ◌||◌, Option, none, some, is_some, is_none, is_empty, List,
  [], ◌∷◌, any, all, Result, ok, err, ◌>>=◌, ◌>>◌, ensure, map_err, if◌then◌else◌,
}
use migration_platform.Text.{Str, lit, str_eq}
use migration_platform.Text.Parts.{join}
use migration_platform.Json.{Value, object}
use migration_platform.Api.{ApiError, ApiResult, validation_failed}
use migration_platform.Templates.Types.{
  AuthType, bearer, basic, api_key, oauth2_client, Auth, DeliveryMode, idempotent, lookup, manual,
  Delivery, Destination, Mapping, Step, RuleTemplate, execution_steps,
}
use migration_platform.Templates.Shape.{destination_value}
use migration_platform.Templates.Refs.{collect_response_refs}

-- `seen.contains(…)`
abbrev pub is_seen : List Str → Str → Bool
is_seen seen name = any (λ n. str_eq n name) seen

abbrev mapping_refs : Option Mapping → List Str
mapping_refs none = []
mapping_refs (some m) = collect_response_refs (object m.payload)

-- The references of the mapping, then those of the destination.
unfoldable pub step_refs : Step → List Str
step_refs s = mapping_refs s.mapping ++ collect_response_refs (destination_value s.destination)

abbrev pub text_or_blank : Option Str → Str
text_or_blank none = []
text_or_blank (some s) = s

abbrev is_oauth2 : AuthType → Bool
is_oauth2 bearer = false
is_oauth2 basic = false
is_oauth2 api_key = false
is_oauth2 oauth2_client = true

module _ (debug_text : Str → Str) where
  -- The loop over the references of a step.
  unfoldable pub check_refs : Str → List Str → List Str → ApiResult (Unit {0})
  check_refs name seen [] = ok tt
  check_refs name seen (r ∷ rs) =
      let rest = check_refs name seen rs in
      if not (is_seen seen r)
      then err (
          validation_failed (
            lit "step "
            ++ (debug_text name
                ++ (lit " references response of step "
                    ++ (debug_text r ++ lit ", which is not an earlier step")))))
      else rest

  unfoldable pub check_step : List Str → Step → ApiResult (Unit {0})
  unfolding check_refs step_refs
  check_step seen s =
      if is_seen seen s.name
      then err (validation_failed (lit "duplicate step name " ++ debug_text s.name))
      else check_refs s.name seen (step_refs s)

  unfoldable pub check_steps : List Str → List Step → ApiResult (Unit {0})
  unfolding check_step
  check_steps seen [] = ok tt
  check_steps seen (s ∷ rest) = do check_step seen s; check_steps (seen ++ (s.name ∷ [])) rest

  unfoldable pub validate_step_references : RuleTemplate → ApiResult (Unit {0})
  unfolding check_steps execution_steps
  validate_step_references t = check_steps [] (execution_steps t)

  -- The closure `fail`.
  abbrev failure : Step → Str → ApiError
  failure s why = validation_failed (lit "step " ++ (debug_text s.name ++ (lit ": " ++ why)))

  unfoldable pub check_auth : Step → Option Auth → ApiResult (Unit {0})
  check_auth s none = ok tt
  check_auth s (some a) =
      if is_oauth2 a.auth_type
      then err (
          failure s
            (lit "auth type oauth2_client is not supported yet; use bearer, basic or api_key"))
      else if is_empty (text_or_blank a.secret_ref)
      then err (failure s (lit "auth requires secretRef naming a destination secret"))
      else ok tt

  -- `match delivery.mode`
  unfoldable pub check_mode : Step → DeliveryMode → Delivery → ApiResult (Unit {0})
  check_mode s idempotent d =
      if is_empty (text_or_blank s.destination.idempotency_header)
      then err (failure s (lit "delivery mode idempotent requires idempotencyHeader"))
      else if is_some d.lookup_by
      then err (failure s (lit "delivery.lookup is only used with mode lookup"))
      else ok tt
  check_mode s lookup d =
      if is_none d.lookup_by
      then err (failure s (lit "delivery mode lookup requires delivery.lookup"))
      else ok tt
  check_mode s manual d =
      if is_some d.lookup_by
      then err (failure s (lit "delivery.lookup is only used with mode lookup"))
      else ok tt

  unfoldable pub check_delivery : Step → Option Delivery → ApiResult (Unit {0})
  unfolding check_mode
  check_delivery s none = ok tt
  check_delivery s (some d) = check_mode s d.mode d

  unfoldable pub check_destinations : List Step → ApiResult (Unit {0})
  unfolding check_auth check_delivery
  check_destinations [] = ok tt
  check_destinations (s ∷ rest) = do
    check_auth s s.destination.auth
    check_delivery s s.destination.delivery
    check_destinations rest

  unfoldable pub validate_destinations : RuleTemplate → ApiResult (Unit {0})
  unfolding check_destinations execution_steps
  validate_destinations t = check_destinations (execution_steps t)

  module _ (schema : Value → Result (List Str) (Unit {0}))
      (from_value : Value → Result Str RuleTemplate) where
    unfoldable pub validate_template : Value → ApiResult RuleTemplate
    unfolding validate_step_references validate_destinations
    validate_template body = do
      map_err (λ es. validation_failed (join (lit "; ") es)) (schema body)
      t ← map_err (λ e. validation_failed (lit "shape: " ++ e)) (from_value body)
      validate_step_references t
      validate_destinations t
      ok t
