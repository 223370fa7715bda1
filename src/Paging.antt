-- ===== src/Paging.antt =====
-- apps/api/src/routes: the listings with a cursor (jobs.rs and batches.rs): the rows that a WHERE
-- clause selects, in the order of falling ids, cut off by a limit; and a client that asks for one page
-- after another, from the last id that it was given or from the cursor of the answer.
pub mod Order
pub mod Laws
use migration_platform.Prelude.{
  ℕ, zero, suc, ◌^◌, ◌-◌, Bool, true, false, ◌&&◌, Option, none, some, List, [], ◌∷◌, ◌++◌, take,
  ltb, if◌then◌else◌,
}
use migration_platform.Int.{ℤ, pos, negsuc}

-- The largest cursor, `i64::MAX`.
abbrev pub max_cursor : ℤ
max_cursor = pos (2 ^ 63 - 1)

-- id < cursor
abbrev pub below : ℤ → ℕ → Bool
below (pos c) id = ltb id c
below (negsuc n) id = false

abbrev pub or_i64 : Option ℤ → ℤ → ℤ
or_i64 none d = d
or_i64 (some n) d = n

module _ {ℓ} {A : Type ℓ} where
  -- WHERE …
  unfoldable pub select : (A → Bool) → List A → List A
  select p [] = []
  select p (x ∷ xs) = let rest = select p xs in if p x then x ∷ rest else rest

  module _ (id_of : A → ℕ) where
    unfoldable pub insert_desc : A → List A → List A
    insert_desc x [] = x ∷ []
    insert_desc x (y ∷ ys) =
        let later = y ∷ insert_desc x ys in if ltb (id_of y) (id_of x) then x ∷ y ∷ ys else later

    -- ORDER BY id DESC
    unfoldable pub sort_desc : List A → List A
    unfolding insert_desc
    sort_desc [] = []
    sort_desc (x ∷ xs) = insert_desc x (sort_desc xs)

    -- WHERE … AND id < cursor ORDER BY id DESC LIMIT limit
    unfoldable pub page : ℕ → ℤ → (A → Bool) → List A → List A
    page limit cursor p rows =
        take limit (sort_desc (select (λ r. p r && below cursor (id_of r)) rows))

    -- `rows.last().map(|r| r.id)`
    unfoldable pub last_id : List A → Option ℕ
    last_id [] = none
    last_id (x ∷ []) = some (id_of x)
    last_id (x ∷ y ∷ ys) = last_id (y ∷ ys)

    -- The rounds of a client, of which each asks for the rows below the last id; it stops at an empty
    -- page.
    unfoldable pub follow : ℕ → (ℤ → List A) → ℤ → List A
    follow zero fetch cursor = []
    follow (suc fuel) fetch cursor = elim (last_id (fetch cursor)) [
      | none ↦ []
      | some c ↦ fetch cursor ++ follow fuel fetch (pos c)
    ]

  -- The rounds of a client that sends back the cursor of each answer; it stops at an answer without
  -- one.
  unfoldable pub follow_cursors : ℕ → (ℤ → List A × Option ℕ) → ℤ → List A
  follow_cursors zero fetch cursor = []
  follow_cursors (suc fuel) fetch cursor = elim (fetch cursor).1 [
    | none ↦ (fetch cursor).0
    | some c ↦ (fetch cursor).0 ++ follow_cursors fuel fetch (pos c)
  ]
