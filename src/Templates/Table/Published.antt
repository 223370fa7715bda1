-- ===== src/Templates/Table/Published.antt =====
-- What is published stays as it is over any sequence of requests, and no organisation touches the rows
-- of another.
use migration_platform.Prelude.{
  ℕ, ◌<◌, ◌≡◌, ◌≢◌, refl, sym, ap, ◌∙◌, inl, inr, true, false, some, List, [], ◌∷◌, arith,
  Bool-cases, ◌==◌, if◌then◌else◌,
}
use migration_platform.Templates.Rows.{
  TemplateRow, is_row, find_row, publish_rows, is_draft, delete_drafts,
}
use migration_platform.Templates.Table.{Caller, Templates}
use migration_platform.Templates.Table.Laws.{
  Request, run, run_all, Moves, kept, inserted, published, deleted, run-Moves,
}
use migration_platform.Templates.Table.Versions.{Below, IsSound, Moves-IsSound}

find-Below :
    (n org id : ℕ) (rs : List TemplateRow) (r : TemplateRow)
    → Below n rs
    → find_row org id rs ≡ some r
    → id < n
unfolding find_row is_row
find-Below n org id [] r h e = cc e
find-Below n org id (q ∷ rs) r h e = ground (arith, find-Below n org id rs r h.1)

publish-same : (r : TemplateRow) → r.published ≡ true → record r { published = true } ≡ r
publish-same r p = ap (λ b. record r { published = b }) (sym p)

find-publish :
    (org id to which : ℕ) (rs : List TemplateRow) (r : TemplateRow)
    → find_row org id rs ≡ some r
    → r.published ≡ true
    → find_row org id (publish_rows to which rs) ≡ some r
unfolding find_row publish_rows
find-publish org id to which [] r e p = cc e
find-publish org id to which (q ∷ rs) r e p = elim (Bool-cases (is_row org id q)) [
  | inl at ↦
      let same : q ≡ r = ground arith in
      let kept_it : record q { published = true } ≡ q = publish-same q (rw (← same) at p) in
      elim (Bool-cases (is_row to which q)) [
        | inl hit ↦ rw (hit, kept_it, at) (ap some same)
        | inr miss ↦ rw (miss, at) (ap some same)
      ]
  | inr away ↦
      let rest : find_row org id rs ≡ some r = ground arith in
      let behind = find-publish org id to which rs r rest p in
      unfold is_row in ground (arith, behind)
]

find-delete :
    (org id to which : ℕ) (rs : List TemplateRow) (r : TemplateRow)
    → find_row org id rs ≡ some r
    → r.published ≡ true
    → find_row org id (delete_drafts to which rs) ≡ some r
unfolding find_row delete_drafts is_draft
find-delete org id to which [] r e p = cc e
find-delete org id to which (q ∷ rs) r e p = ground (arith, find-delete org id to which rs r)

Moves-find :
    (org id by : ℕ) (st end : Templates) (r : TemplateRow)
    → Moves by st end
    → IsSound st
    → r.published ≡ true
    → find_row org id st.rows ≡ some r
    → find_row org id end.rows ≡ some r
Moves-find org id by st end r (kept e k) s p f = rw e f
Moves-find org id by st end r (inserted q i o fresh e k) s p f =
    let lower = find-Below st.next_id org id st.rows r s.below f in
    let away : is_row org id q ≡ false = unfold is_row in ground arith in
    rw e (unfold find_row in rw away f)
Moves-find org id by st end r (published which e k) s p f =
    rw e (find-publish org id by which st.rows r f p)
Moves-find org id by st end r (deleted which e k) s p f =
    rw e (find-delete org id by which st.rows r f p)

-- A row that is published is found unchanged after any requests of any organisations, in a table that
-- is sound.
pub published-stays :
    (qs : List (Caller × Request)) (st : Templates) (org id : ℕ) (r : TemplateRow)
    → IsSound st
    → r.published ≡ true
    → find_row org id st.rows ≡ some r
    → find_row org id (run_all qs st).rows ≡ some r
unfolding run_all
published-stays [] st org id r s p f = f
published-stays (q ∷ qs) st org id r s p f =
    let move = run-Moves q.0 q.1 st in
    published-stays qs (run q st) org id r (Moves-IsSound q.0.org st (run q st) move s) p
      (Moves-find org id q.0.org st (run q st) r move s p f)

-- The rows of an organisation.
unfoldable pub rows_of : ℕ → List TemplateRow → List TemplateRow
rows_of org [] = []
rows_of org (r ∷ rs) = let rest = rows_of org rs in if r.org_id == org then r ∷ rest else rest

rows_of-publish :
    (org by which : ℕ) (rs : List TemplateRow)
    → by ≢ org
    → rows_of org (publish_rows by which rs) ≡ rows_of org rs
unfolding rows_of publish_rows is_row
rows_of-publish org by which [] n = refl
rows_of-publish org by which (r ∷ rs) n = ground (arith, rows_of-publish org by which rs n)

rows_of-delete :
    (org by which : ℕ) (rs : List TemplateRow)
    → by ≢ org
    → rows_of org (delete_drafts by which rs) ≡ rows_of org rs
unfolding rows_of delete_drafts is_draft is_row
rows_of-delete org by which [] n = refl
rows_of-delete org by which (r ∷ rs) n = ground (arith, rows_of-delete org by which rs n)

-- A request of one organisation leaves the rows of every other as they are.
pub run-rows_of :
    (c : Caller) (q : Request) (st : Templates) (org : ℕ)
    → c.org ≢ org
    → rows_of org (run (c, q) st).rows ≡ rows_of org st.rows
run-rows_of c q st org n = elim (run-Moves c q st) [
  | kept e k ↦ ap (rows_of org) e
  | inserted r i o fresh e k ↦ ap (rows_of org) e ∙ unfold rows_of in ground arith
  | published id e k ↦ ap (rows_of org) e ∙ rows_of-publish org c.org id st.rows n
  | deleted id e k ↦ ap (rows_of org) e ∙ rows_of-delete org c.org id st.rows n
]
