-- ===== src/Templates/Table/Newest.antt =====
-- A version that is added is the newest of its template.
use migration_platform.Prelude.{
  ℕ, ◌+◌, ◌<◌, ◌≤◌, ◌≡◌, refl, true, false, List, [], ◌∷◌, any, All, ok, arith,
}
use migration_platform.Text.{Str}
use migration_platform.Templates.Rows.{TemplateRow, is_version, has_key, max_version}
use migration_platform.Templates.Table.{
  Caller, CreateRequest, Templates, new_row, record_audit, insert_row, may_add, create_version,
}

-- Every row of the template is older.
abbrev pub Older : ℕ → Str → ℕ → List TemplateRow → Type 0
Older org key v = All (λ q. has_key org key q ≡ true → q.version < v)

Older-le :
    (org : ℕ) (key : Str) (n m : ℕ) (rs : List TemplateRow)
    → n ≤ m
    → Older org key n rs
    → Older org key m rs
Older-le org key n m [] k h = tt
Older-le org key n m (r ∷ rs) k h = ((λ e. omega (arith, k, h.0 e)), Older-le org key n m rs k h.1)

max_version-Older :
    (org : ℕ) (key : Str) (rs : List TemplateRow) → Older org key (max_version org key rs + 1) rs
unfolding max_version
max_version-Older org key [] = tt
max_version-Older org key (r ∷ rs) =
    let step : max_version org key rs ≤ max_version org key (r ∷ rs) = ground arith in
    (
      (λ e. ground arith),
      Older-le org key (max_version org key rs + 1) (max_version org key (r ∷ rs) + 1) rs
          (omega (arith, step)) (max_version-Older org key rs),
    )

not-taken :
    (org : ℕ) (key : Str) (v : ℕ) (rs : List TemplateRow)
    → Older org key v rs
    → any (is_version org key v) rs ≡ false
unfolding is_version has_key
not-taken org key v [] h = refl
not-taken org key v (r ∷ rs) h = ground (arith, not-taken org key v rs h.1, h.0)

-- If the checks of a new version pass and the audit log takes its entry, then the request is answered
-- with a draft, which is added to the table, and whose version is above all that the key has had.
pub create_version-newest :
    (c : Caller) (id : ℕ) (req : CreateRequest) (st : Templates) (key : Str) (user : ℕ)
    → may_add c id req st.rows ≡ ok (key, user)
    → c.audit_answer ≡ ok tt
    → (row : TemplateRow) × ((create_version c id req st).0 ≡ ok row)
      × ((create_version c id req st).1.rows ≡ row ∷ st.rows)
      × ((row.template_key ≡ key) × (row.published ≡ false) × (row.schema_json ≡ req.schema_json))
      × Older c.org key row.version st.rows
unfolding create_version insert_row record_audit new_row
create_version-newest c id req st key user h a =
    let v = max_version c.org key st.rows + 1 in
    let older = max_version-Older c.org key st.rows in
    let fresh : any (is_version c.org key v) st.rows ≡ false =
      not-taken c.org key v st.rows older in
    (
      new_row c req key v user st.next_id,
      rw (h, fresh, a) refl,
      rw (h, fresh, a) refl,
      (refl, refl, refl),
      older,
    )
