-- ===== src/Templates/Table.antt =====
-- apps/api/src/routes/templates.rs: the handlers on the table of template versions. The JSON of the
-- row that an audit entry keeps is left out.
pub mod Laws
pub mod Versions
pub mod Published
pub mod Newest
use migration_platform.Prelude.{
  ℕ, ◌+◌, ◌^◌, ◌++◌, Bool, true, false, Option, none, some, List, [], ◌∷◌, any, Result, ok, err,
  ◌>>=◌, ◌>>◌, ensure, ok_or, ltb, if◌then◌else◌,
}
use migration_platform.Text.{Str, lit, decimal}
use migration_platform.Json.{Value}
use migration_platform.Api.{ApiError, ApiResult, not_found, unauthorized, conflict, database}
use migration_platform.Jobs.Types.{require_role}
use migration_platform.Templates.Types.{RuleTemplate}
use migration_platform.Templates.Rows.{
  TemplateRow, find_row, is_version, max_version, versions_of, publish_rows, is_draft,
  delete_drafts,
}

pub record AuditEntry : Type 0 where
  pub org_id : ℕ
  pub actor : Str
  pub entity : Str
  pub entity_id : Str
  pub action : Str

-- The table with the next value of its sequence, and the audit log, its last entry first.
pub record Templates : Type 0 where
  pub rows : List TemplateRow
  pub next_id : ℕ
  pub audit : List AuditEntry

pub record CreateRequest : Type 0 where
  pub template_key : Option Str
  pub name : Str
  pub schema_json : Value

-- What a handler is called with: the claims, the user id that `sub` spells, the text of a new UUID,
-- the checks of the template, and whether the audit log takes an entry.
pub record Caller : Type 0 where
  pub org : ℕ
  pub role : Str
  pub sub : Str
  pub user : Option ℕ
  pub uuid : Str
  pub validate : Value → ApiResult RuleTemplate
  pub audit_answer : ApiResult (Unit {0})

abbrev pub writers : List Str
writers = lit "admin" ∷ lit "editor" ∷ []

unfoldable pub record_audit : Caller → ℕ → Str → Templates → ApiResult (Unit {0}) × Templates
record_audit c id action st = elim c.audit_answer [
  | err e ↦ (err e, st)
  | ok u ↦ (
    ok tt,
    record st {
      audit =
          record {
            org_id = c.org;
            actor = c.sub;
            entity = lit "rule_template";
            entity_id = decimal id;
            action = action;
          }
          ∷ st.audit;
    },
  )
]

-- What the handler answers once its statement has run.
abbrev pub audited : {A : Type 0} → A → ApiResult (Unit {0}) × Templates → ApiResult A × Templates
audited a (ok u, st) = (ok a, st)
audited a (err e, st) = (err e, st)

abbrev pub refused : {A : Type 0} → ApiError → Templates → ApiResult A × Templates
refused e st = (err e, st)

-- The checks of a handler come first, and end it without a change.
abbrev pub after :
    {A B : Type 0}
    → ApiResult A
    → Templates
    → (A → ApiResult B × Templates)
    → ApiResult B × Templates
after (ok a) st k = k a
after (err e) st k = (err e, st)

abbrev key_or_new : Option Str → Str → Str
key_or_new none uuid = lit "rt_" ++ uuid
key_or_new (some k) uuid = k

unfoldable pub new_row : Caller → CreateRequest → Str → ℕ → ℕ → ℕ → TemplateRow
new_row c req key v user id = record {
  id = id;
  org_id = c.org;
  template_key = key;
  version = v;
  name = req.name;
  schema_json = req.schema_json;
  published = false;
  created_by = user;
}

-- An INSERT takes a value of the sequence also when it is refused.
unfoldable pub insert_row :
    Caller
    → CreateRequest
    → Str
    → ℕ
    → ℕ
    → ApiError
    → Str
    → Templates
    → ApiResult TemplateRow × Templates
unfolding is_version new_row record_audit
insert_row c req key v user taken action st =
    let row = new_row c req key v user st.next_id in
    let moved = record st { next_id = st.next_id + 1 } in
    if any (is_version c.org key v) st.rows
    then (err taken, moved)
    else audited row (record_audit c row.id action (record moved { rows = row ∷ st.rows }))

unfoldable pub may_create : Caller → CreateRequest → ApiResult ℕ
may_create c req = do
  require_role c.role writers
  tpl ← c.validate req.schema_json
  ok_or c.user unauthorized

unfoldable pub create_template :
    Caller → CreateRequest → Templates → ApiResult TemplateRow × Templates
unfolding may_create insert_row
create_template c req st = after (may_create c req) st (λ user.
    let key = key_or_new req.template_key c.uuid in
    insert_row c req key 1 user (conflict (lit "template_key " ++ (key ++ lit " already exists")))
      (lit "create") st)

unfoldable pub get_template : ℕ → ℕ → Templates → ApiResult TemplateRow
get_template org id st = ok_or (find_row org id st.rows) not_found

unfoldable pub list_versions : ℕ → ℕ → Templates → ApiResult (List TemplateRow)
unfolding versions_of
list_versions org id st = do
  r ← ok_or (find_row org id st.rows) not_found
  ok (versions_of org r.template_key st.rows)

-- The key of the template and the user. The column `version` is an i32.
unfoldable pub may_add : Caller → ℕ → CreateRequest → List TemplateRow → ApiResult (Str × ℕ)
unfolding max_version
may_add c id req rows = do
  require_role c.role writers
  tpl ← c.validate req.schema_json
  r ← ok_or (find_row c.org id rows) not_found
  user ← ok_or c.user unauthorized
  ensure (ltb (max_version c.org r.template_key rows + 1) (2 ^ 31))
      (database (lit "integer out of range"))
  ok (r.template_key, user)

unfoldable pub create_version :
    Caller → ℕ → CreateRequest → Templates → ApiResult TemplateRow × Templates
unfolding may_add insert_row max_version
create_version c id req st = after (may_add c id req st.rows) st (λ p.
    insert_row c req p.0 (max_version c.org p.0 st.rows + 1) p.1
      (database (lit "duplicate key value violates unique constraint")) (lit "create_version") st)

unfoldable pub publish_template : Caller → ℕ → Templates → ApiResult TemplateRow × Templates
unfolding publish_rows record_audit
publish_template c id st =
    after (do require_role c.role writers; ok_or (find_row c.org id st.rows) not_found) st
      (λ r.
        audited (record r { published = true })
          (record_audit c id (lit "publish") (record st { rows = publish_rows c.org id st.rows })))

unfoldable pub delete_template : Caller → ℕ → Templates → ApiResult (Unit {0}) × Templates
unfolding delete_drafts record_audit
delete_template c id st =
    after
      (do
        require_role c.role (lit "admin" ∷ [])
        ensure (any (is_draft c.org id) st.rows)
            (conflict (lit "template missing or already published; cannot delete")))
      st
      (λ u.
        audited tt
          (record_audit c id (lit "delete") (record st { rows = delete_drafts c.org id st.rows })))
