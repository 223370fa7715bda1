-- ===== src/Templates/Table/Versions.antt =====
-- The table of template versions stays sound over any sequence of requests.
use migration_platform.Prelude.{
  ℕ, ◌<◌, ◌≤◌, ◌≡◌, ◌≢◌, inl, inr, true, false, List, [], ◌∷◌, any, All, arith, Bool-cases,
}
use migration_platform.Templates.Rows.{
  TemplateRow, is_row, is_version, publish_rows, is_draft, delete_drafts,
}
use migration_platform.Templates.Table.{Templates}
use migration_platform.Templates.Table.Laws.{Moves, kept, inserted, published, deleted}

-- Two rows that differ in their id, and in the version, the key or the organisation.
abbrev pub Apart : TemplateRow → TemplateRow → Type 0
Apart r q = (q.id ≢ r.id) × (is_version r.org_id r.template_key r.version q ≡ false)

abbrev pub Distinct : List TemplateRow → Type 0
Distinct [] = Unit
Distinct (r ∷ rs) = All (Apart r) rs × Distinct rs

abbrev pub Below : ℕ → List TemplateRow → Type 0
Below n = All (λ r. r.id < n)

pub record IsSound (st : Templates) : Type 0 where
  pub below : Below st.next_id st.rows
  pub distinct : Distinct st.rows

Below-le : (n m : ℕ) (rs : List TemplateRow) → n ≤ m → Below n rs → Below m rs
Below-le n m [] k h = tt
Below-le n m (r ∷ rs) k h = (omega (arith, k, h.0), Below-le n m rs k h.1)

publish-Below :
    (n org id : ℕ) (rs : List TemplateRow) → Below n rs → Below n (publish_rows org id rs)
unfolding publish_rows
publish-Below n org id [] h = tt
publish-Below n org id (r ∷ rs) h = (ground arith, publish-Below n org id rs h.1)

publish-Apart :
    (org id : ℕ) (r : TemplateRow) (rs : List TemplateRow)
    → All (Apart r) rs
    → All (Apart r) (publish_rows org id rs)
unfolding publish_rows is_version
publish-Apart org id r [] h = tt
publish-Apart org id r (q ∷ rs) h = (ground arith, publish-Apart org id r rs h.1)

publish-Distinct :
    (org id : ℕ) (rs : List TemplateRow) → Distinct rs → Distinct (publish_rows org id rs)
unfolding publish_rows is_version
publish-Distinct org id [] h = tt
publish-Distinct org id (r ∷ rs) h = elim (Bool-cases (is_row org id r)) [
  | inl e ↦
      rw e (
        publish-Apart org id (record r { published = true }) rs h.0,
        publish-Distinct org id rs h.1,
      )
  | inr e ↦ rw e (publish-Apart org id r rs h.0, publish-Distinct org id rs h.1)
]

-- A statement that deletes keeps what all rows have.
delete-All :
    (P : TemplateRow → Type 0) (org id : ℕ) (rs : List TemplateRow)
    → All P rs
    → All P (delete_drafts org id rs)
unfolding delete_drafts
delete-All P org id [] h = tt
delete-All P org id (r ∷ rs) h = elim (Bool-cases (is_draft org id r)) [
  | inl e ↦ rw e (delete-All P org id rs h.1)
  | inr e ↦ rw e (h.0, delete-All P org id rs h.1)
]

delete-Distinct :
    (org id : ℕ) (rs : List TemplateRow) → Distinct rs → Distinct (delete_drafts org id rs)
unfolding delete_drafts
delete-Distinct org id [] h = tt
delete-Distinct org id (r ∷ rs) h = elim (Bool-cases (is_draft org id r)) [
  | inl e ↦ rw e (delete-Distinct org id rs h.1)
  | inr e ↦ rw e (delete-All (Apart r) org id rs h.0, delete-Distinct org id rs h.1)
]

new-Apart :
    (r : TemplateRow) (n : ℕ) (rs : List TemplateRow)
    → r.id ≡ n
    → Below n rs
    → any (is_version r.org_id r.template_key r.version) rs ≡ false
    → All (Apart r) rs
new-Apart r n [] e h k = tt
new-Apart r n (q ∷ rs) e h k = (ground arith, new-Apart r n rs e h.1 (ground arith))

pub Moves-IsSound : (org : ℕ) (st end : Templates) → Moves org st end → IsSound st → IsSound end
Moves-IsSound org st end (kept e k) s = record {
  below = rw e (Below-le st.next_id end.next_id st.rows k s.below);
  distinct = rw e s.distinct;
}
Moves-IsSound org st end (inserted r i o fresh e k) s = record {
  below =
      rw e
        (omega (arith, i, k), Below-le st.next_id end.next_id st.rows (omega (arith, k)) s.below);
  distinct = rw e (new-Apart r st.next_id st.rows i s.below fresh, s.distinct);
}
Moves-IsSound org st end (published id e k) s = record {
  below = rw (e, k) (publish-Below st.next_id org id st.rows s.below);
  distinct = rw e (publish-Distinct org id st.rows s.distinct);
}
Moves-IsSound org st end (deleted id e k) s = record {
  below = rw (e, k) (delete-All (λ r. r.id < st.next_id) org id st.rows s.below);
  distinct = rw e (delete-Distinct org id st.rows s.distinct);
}
