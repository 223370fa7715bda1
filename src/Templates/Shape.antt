-- ===== src/Templates/Shape.antt =====
-- apps/api/src/rule_template_types.rs: a destination as the JSON that serde derives for it. A field
-- that is not there is left out.
use migration_platform.Prelude.{Option, none, some}
use migration_platform.Text.{Str, lit}
use migration_platform.Json.{Value, number, pos_int, string, object, Fields, end, field}
use migration_platform.Templates.Types.{
  AuthType, bearer, basic, api_key, oauth2_client, Auth, HttpMethod, get_method, post, put, patch,
  delete, DeliveryMode, idempotent, lookup, manual, Lookup, Delivery, Destination,
}

unfoldable pub auth_type_text : AuthType → Str
auth_type_text bearer = lit "bearer"
auth_type_text basic = lit "basic"
auth_type_text api_key = lit "api_key"
auth_type_text oauth2_client = lit "oauth2_client"

unfoldable pub method_text : HttpMethod → Str
method_text get_method = lit "GET"
method_text post = lit "POST"
method_text put = lit "PUT"
method_text patch = lit "PATCH"
method_text delete = lit "DELETE"

unfoldable pub mode_text : DeliveryMode → Str
mode_text idempotent = lit "idempotent"
mode_text lookup = lit "lookup"
mode_text manual = lit "manual"

-- `skip_serializing_if = "Option::is_none"`
abbrev pub skip_none : {A : Type 0} → Str → (A → Value) → Option A → Fields → Fields
skip_none k f none fs = fs
skip_none k f (some a) fs = field k (f a) fs

unfoldable pub auth_value : Auth → Value
unfolding auth_type_text
auth_value a = object (
    field (lit "type") (string (auth_type_text a.auth_type)) (
      skip_none (lit "secretRef") string a.secret_ref
        (skip_none (lit "headerName") string a.header_name end)))

unfoldable pub lookup_value : Lookup → Value
lookup_value l = object (
    skip_none (lit "method") string l.method (
      field (lit "url") (string l.url) (
        skip_none (lit "pathParams") object l.path_params (
          skip_none (lit "queryParams") object l.query_params (
            skip_none (lit "headers") object l.headers
              (field (lit "foundPath") (string l.found_path) end))))))

unfoldable pub delivery_value : Delivery → Value
unfolding mode_text lookup_value
delivery_value d = object (
    field (lit "mode") (string (mode_text d.mode)) (
      skip_none (lit "idempotencyRetentionHours") (λ n. number (pos_int n))
        d.idempotency_retention_hours (skip_none (lit "lookup") lookup_value d.lookup_by end)))

unfoldable pub destination_value : Destination → Value
unfolding method_text auth_value delivery_value
destination_value d = object (
    field (lit "type") (string d.destination_type) (
      field (lit "method") (string (method_text d.method)) (
        field (lit "url") (string d.url) (
          skip_none (lit "pathParams") object d.path_params (
            skip_none (lit "queryParams") object d.query_params (
              skip_none (lit "headers") object d.headers (
                skip_none (lit "auth") auth_value d.auth (
                  skip_none (lit "idempotencyKey") (λ v. v) d.idempotency_key
                    (skip_none (lit "idempotencyHeader") string d.idempotency_header
                      (skip_none (lit "delivery") delivery_value d.delivery end))))))))))
