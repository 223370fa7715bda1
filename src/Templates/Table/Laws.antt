-- ===== src/Templates/Table/Laws.antt =====
-- The table of template versions over any sequence of requests: it stays sound, and what is published
-- stays as it is.
use migration_platform.Prelude.{
  ℕ, ◌+◌, ◌≤◌, ◌≡◌, refl, inl, inr, false, List, [], ◌∷◌, any, ok, err, arith, Result-cases,
  Bool-cases,
}
use migration_platform.Text.{Str}
use migration_platform.Api.{ApiError, ApiResult}
use migration_platform.Templates.Rows.{TemplateRow, is_version, publish_rows, delete_drafts}
use migration_platform.Templates.Table.{
  Caller, CreateRequest, Templates, record_audit, audited, insert_row, new_row, may_create,
  create_template, may_add, create_version, publish_template, delete_template, after,
}

-- A request of a client that changes the table.
pub data Request : Type 0 where
  creates : CreateRequest → Request
  adds : ℕ → CreateRequest → Request
  publishes deletes : ℕ → Request

unfoldable pub run : Caller × Request → Templates → Templates
unfolding create_template create_version publish_template delete_template
run (c, creates req) st = (create_template c req st).1
run (c, adds id req) st = (create_version c id req st).1
run (c, publishes id) st = (publish_template c id st).1
run (c, deletes id) st = (delete_template c id st).1

unfoldable pub run_all : List (Caller × Request) → Templates → Templates
unfolding run
run_all [] st = st
run_all (q ∷ qs) st = run_all qs (run q st)

-- What a request of an organisation does to the table at most.
pub data Moves (org : ℕ) (st end : Templates) : Type 0 where
  kept : end.rows ≡ st.rows → st.next_id ≤ end.next_id → Moves org st end
  inserted :
      (r : TemplateRow)
      → r.id ≡ st.next_id
      → r.org_id ≡ org
      → any (is_version r.org_id r.template_key r.version) st.rows ≡ false
      → end.rows ≡ r ∷ st.rows
      → end.next_id ≡ st.next_id + 1
      → Moves org st end
  published :
      (id : ℕ)
      → end.rows ≡ publish_rows org id st.rows
      → end.next_id ≡ st.next_id
      → Moves org st end
  deleted :
      (id : ℕ)
      → end.rows ≡ delete_drafts org id st.rows
      → end.next_id ≡ st.next_id
      → Moves org st end

audit-rows :
    {A : Type 0} (a : A) (c : Caller) (id : ℕ) (action : Str) (st : Templates)
    → ((audited a (record_audit c id action st)).1.rows ≡ st.rows)
      × ((audited a (record_audit c id action st)).1.next_id ≡ st.next_id)
unfolding record_audit
audit-rows a c id action st = elim (Result-cases c.audit_answer) [
  | inl (u, e) ↦ rw e (refl, refl)
  | inr (why, e) ↦ rw e (refl, refl)
]

insert-Moves :
    (c : Caller) (req : CreateRequest) (key : Str) (v user : ℕ) (taken : ApiError) (action : Str)
    (st : Templates)
    → Moves c.org st (insert_row c req key v user taken action st).1
unfolding insert_row
insert-Moves c req key v user taken action st =
    elim (Bool-cases (any (is_version c.org key v) st.rows)) [
      | inl e ↦ rw e (kept refl (omega arith))
      | inr e ↦
          let row = new_row c req key v user st.next_id in
          let full : Templates = record {
            rows = row ∷ st.rows;
            next_id = st.next_id + 1;
            audit = st.audit;
          } in
          let a = audit-rows row c st.next_id action full in
          rw e (
            inserted row (unfold new_row in refl) (unfold new_row in refl) (unfold new_row in e) a.0
              a.1)
    ]

-- A handler's checks change nothing.
after-Moves :
    {A B : Type 0} (org : ℕ) (checks : ApiResult A) (st : Templates)
    (k : A → ApiResult B × Templates)
    → ((a : A) → Moves org st (k a).1)
    → Moves org st (after checks st k).1
after-Moves org (ok a) st k h = h a
after-Moves org (err e) st k h = kept refl (omega arith)

-- A request makes at most one move of the table: it keeps the rows, adds one of its organisation with
-- the next id and a version that was free, publishes one of its rows, or deletes drafts of them.
pub run-Moves : (c : Caller) (q : Request) (st : Templates) → Moves c.org st (run (c, q) st)
unfolding run create_template create_version publish_template delete_template
run-Moves c (creates req) st =
    after-Moves c.org (may_create c req) st _ (λ user. insert-Moves c req _ 1 user _ _ st)
run-Moves c (adds id req) st =
    after-Moves c.org (may_add c id req st.rows) st _ (λ p. insert-Moves c req _ _ _ _ _ st)
run-Moves c (publishes id) st = after-Moves c.org _ st _ (λ r.
    let a = audit-rows _ c id _ (record st { rows = publish_rows c.org id st.rows }) in
    published id a.0 a.1)
run-Moves c (deletes id) st = after-Moves c.org _ st _ (λ u.
    let a = audit-rows _ c id _ (record st { rows = delete_drafts c.org id st.rows }) in
    deleted id a.0 a.1)
