-- ===== src/Templates/Rows.antt =====
-- RuleTemplateRow of apps/api/src/db.rs, the table of apps/api/migrations/0001_init.sql, and the
-- statements of apps/api/src/routes/templates.rs on it. The column `created_at` is left out.
use migration_platform.Prelude.{
  ℕ, Bool, true, not, ◌&&◌, Option, none, some, List, [], ◌∷◌, ◌==◌, ltb, if◌then◌else◌,
}
use migration_platform.Text.{Str, str_eq}
use migration_platform.Json.{Value}

pub record TemplateRow : Type 0 where
  pub id : ℕ
  pub org_id : ℕ
  pub template_key : Str
  pub version : ℕ
  pub name : Str
  pub schema_json : Value
  pub published : Bool
  pub created_by : ℕ

-- WHERE id = ? AND org_id = ?
unfoldable pub is_row : ℕ → ℕ → TemplateRow → Bool
is_row org id r = (r.id == id) && (r.org_id == org)

unfoldable pub find_row : ℕ → ℕ → List TemplateRow → Option TemplateRow
unfolding is_row
find_row org id [] = none
find_row org id (r ∷ rs) = let rest = find_row org id rs in if is_row org id r then some r else rest

-- The unique constraint on (org_id, template_key, version).
unfoldable pub is_version : ℕ → Str → ℕ → TemplateRow → Bool
is_version org key v r = (r.org_id == org) && (str_eq r.template_key key && (r.version == v))

unfoldable pub has_key : ℕ → Str → TemplateRow → Bool
has_key org key r = (r.org_id == org) && str_eq r.template_key key

-- COALESCE(MAX(version), 0)
unfoldable pub max_version : ℕ → Str → List TemplateRow → ℕ
unfolding has_key
max_version org key [] = 0
max_version org key (r ∷ rs) =
    let rest = max_version org key rs in
    if has_key org key r then (if ltb rest r.version then r.version else rest) else rest

-- ORDER BY version DESC
unfoldable pub insert_desc : TemplateRow → List TemplateRow → List TemplateRow
insert_desc r [] = r ∷ []
insert_desc r (q ∷ qs) =
    let rest = insert_desc r qs in if ltb r.version q.version then q ∷ rest else r ∷ q ∷ qs

unfoldable pub versions_of : ℕ → Str → List TemplateRow → List TemplateRow
unfolding insert_desc has_key
versions_of org key [] = []
versions_of org key (r ∷ rs) =
    let rest = versions_of org key rs in if has_key org key r then insert_desc r rest else rest

-- UPDATE rule_templates SET published = true WHERE …
unfoldable pub publish_rows : ℕ → ℕ → List TemplateRow → List TemplateRow
unfolding is_row
publish_rows org id [] = []
publish_rows org id (r ∷ rs) =
    (if is_row org id r then record r { published = true } else r) ∷ publish_rows org id rs

-- DELETE FROM rule_templates WHERE … AND published = false
unfoldable pub is_draft : ℕ → ℕ → TemplateRow → Bool
unfolding is_row
is_draft org id r = is_row org id r && not r.published

unfoldable pub delete_drafts : ℕ → ℕ → List TemplateRow → List TemplateRow
unfolding is_draft
delete_drafts org id [] = []
delete_drafts org id (r ∷ rs) =
    let rest = delete_drafts org id rs in if is_draft org id r then rest else r ∷ rest
