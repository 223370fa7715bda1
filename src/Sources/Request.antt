-- ===== src/Sources/Request.antt =====
-- apps/api/src/sources.rs: parsing a client's `source_ref`. The text that `Debug` prints of a kind is
-- an argument.
pub mod Laws
use migration_platform.Prelude.{
  ℕ, ◌++◌, Bool, true, false, not, ◌&&◌, ◌||◌, Option, none, some, is_some, List, [], ◌∷◌, any,
  Result, ok, err, ◌>>=◌, ◌>>◌, ensure, ok_or, ltb, if◌then◌else◌,
}
use migration_platform.Text.{Str, lit, str_eq, trim, filter_opt, nonempty}
use migration_platform.Text.Parts.{join}
use migration_platform.Int.{ℤ, pos, negsuc}
use migration_platform.Json.{
  Value, null, bool, number, string, array, object, Fields, end, field, get_field, as_object,
  as_str, as_i64,
}
use migration_platform.Api.{ApiError, ApiResult, bad_request}
use migration_platform.Sources.Types.{
  SourceRequest, by_id, stored_object, from_connector, connector_extra_keys, accepted,
}

abbrev positive : Option ℤ → Option ℕ
positive none = none
positive (some (pos n)) = if ltb 0 n then some n else none
positive (some (negsuc n)) = none

-- `as_i64().filter(|n| *n > 0)`
unfoldable pub positive_id : Value → Option ℕ
positive_id v = positive (as_i64 v)

unfoldable pub parse_source_id : Value → ApiResult SourceRequest
unfolding positive_id
parse_source_id v = do
  id ← ok_or (positive_id v) (bad_request (lit "source_id must be a positive integer"))
  ok (by_id id)

unfoldable pub refuse_keys : List Str → Fields → ApiResult (Unit {0})
refuse_keys [] obj = ok tt
refuse_keys (k ∷ ks) obj =
    let rest = refuse_keys ks obj in
    if is_some (get_field k obj)
    then err (bad_request (lit "source_ref." ++ (k ++ (lit " is not accepted; " ++ accepted))))
    else rest

abbrev pub str_field : Str → Fields → Option Str
str_field k obj = elim (get_field k obj) [ none ↦ none | some v ↦ as_str v ]

abbrev pub or_else {ℓ} : {A : Type ℓ} → Option A → Option A → Option A
or_else none b = b
or_else (some a) b = some a

abbrev pub or_blank : Option Str → Str
or_blank none = []
or_blank (some s) = s

abbrev pub checked_connector : Option Value → ApiResult (Option ℕ)
checked_connector none = ok none
checked_connector (some v) = do
  id ← ok_or (positive_id v) (bad_request (lit "connector_id must be a positive integer"))
  ok (some id)

unfoldable pub connector_id_of : Fields → ApiResult (Option ℕ)
unfolding positive_id
connector_id_of obj =
    checked_connector
      (or_else (get_field (lit "connector_id") obj) (get_field (lit "connectorId") obj))

abbrev trimmed : Option Str → Option Str
trimmed none = none
trimmed (some s) = some (trim s)

-- The closure `field` of the upload shape.
unfoldable pub required_field : Str → Fields → ApiResult Str
required_field name obj =
    ok_or (filter_opt nonempty (trimmed (str_field name obj)))
      (bad_request (lit "source_ref." ++ (name ++ lit " is required")))

unfoldable pub parse_object : Fields → ApiResult SourceRequest
unfolding required_field
parse_object obj = do
  bucket ← required_field (lit "bucket") obj
  key ← required_field (lit "key") obj
  ok (stored_object bucket key)

unfoldable pub extra_of : Option Value → ApiResult Fields
extra_of none = ok end
extra_of (some null) = ok end
extra_of (some (object fs)) = ok fs
extra_of (some (bool b)) = err (bad_request (lit "source_ref.extra must be an object"))
extra_of (some (number n)) = err (bad_request (lit "source_ref.extra must be an object"))
extra_of (some (string s)) = err (bad_request (lit "source_ref.extra must be an object"))
extra_of (some (array vs)) = err (bad_request (lit "source_ref.extra must be an object"))

-- The loop over the options of a connector.
unfoldable pub check_extra : Fields → ApiResult (Unit {0})
check_extra end = ok tt
check_extra (field k v rest) =
    let later = check_extra rest in
    if not (any (λ a. str_eq a k) connector_extra_keys)
    then err (
        bad_request (
          lit "source_ref.extra."
          ++ (k ++ (lit " is not allowed; allowed: " ++ join (lit ", ") connector_extra_keys))))
    else if not (is_some (as_str v))
    then err (bad_request (lit "source_ref.extra." ++ (k ++ lit " must be a string")))
    else later

unfoldable pub parse_connector : ℕ → Fields → ApiResult SourceRequest
unfolding extra_of check_extra
parse_connector id obj = do
  extra ← extra_of (get_field (lit "extra") obj)
  check_extra extra
  ok (from_connector id extra)

module _ (debug_text : Str → Str) where
  unfoldable pub unsupported : Str → ApiError
  unsupported kind =
      bad_request
        (lit "unsupported source_ref type " ++ (debug_text kind ++ (lit "; " ++ accepted)))

  -- `match (kind, connector_id)`
  unfoldable pub parse_kind : Str → Option ℕ → Fields → ApiResult SourceRequest
  unfolding unsupported
  parse_kind kind none obj =
      if str_eq kind (lit "minio")
      then parse_object obj
      else if str_eq kind (lit "connector")
      then err (bad_request (lit "source_ref.connector_id is required for connector sources"))
      else err (unsupported kind)
  parse_kind kind (some id) obj =
      if str_eq kind (lit "minio")
      then parse_object obj
      else if str_eq kind (lit "connector") || str_eq kind (lit "salesforce")
      then parse_connector id obj
      else err (unsupported kind)

  unfoldable pub parse_described : Fields → ApiResult SourceRequest
  unfolding refuse_keys connector_id_of
  parse_described obj = do
    refuse_keys (lit "path" ∷ lit "url" ∷ lit "secret" ∷ []) obj
    connector_id ← connector_id_of obj
    parse_kind (or_blank (str_field (lit "type") obj)) connector_id obj

  unfoldable pub parse_source_request : Value → ApiResult SourceRequest
  unfolding parse_source_id
  parse_source_request v = do
    obj ← ok_or (as_object v) (bad_request (lit "source_ref must be a JSON object; " ++ accepted))
    elim (get_field (lit "source_id") obj) [
      | some id ↦ parse_source_id id
      | none ↦ parse_described obj
    ]
