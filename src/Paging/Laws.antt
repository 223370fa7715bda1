-- ===== src/Paging/Laws.antt =====
-- A client that follows the cursors is given every row that the listing selects, once, in the order of
-- falling ids.
use mathlib.Core.Path.{subst}
use migration_platform.Prelude.{
  ℕ, zero, suc, ◌<◌, ◌≤◌, ◌≡◌, refl, sym, ap, ◌∙◌, Bool, true, false, ◌&&◌, none, some, List, [],
  ◌∷◌, ◌++◌, All, any, take, length, arith, Bool-cases, Option-cases, inl, inr, ltb,
}
use migration_platform.Int.{ℤ, pos, negsuc}
use migration_platform.Paging.{
  below, select, insert_desc, sort_desc, page, last_id, follow, follow_cursors,
}
use migration_platform.Paging.Order.{
  select-select, select-congr, length-select-le, any-select, IsUnique, IsFalling,
  sort_desc-IsFalling, sort_desc-select, any-sort_desc, All-sort_desc, select-IsUnique,
}

module _ {ℓ} {A : Type ℓ} where
  abbrev pub drop : ℕ → List A → List A
  drop zero xs = xs
  drop (suc n) [] = []
  drop (suc n) (x ∷ xs) = drop n xs

  take-append-drop : (n : ℕ) (xs : List A) → take n xs ++ drop n xs ≡ xs
  take-append-drop zero xs = refl
  take-append-drop (suc n) [] = refl
  take-append-drop (suc n) (x ∷ xs) = ap (λ t. x ∷ t) (take-append-drop n xs)

  length-drop-le : (n : ℕ) (xs : List A) → length (drop n xs) ≤ length xs
  length-drop-le zero xs = omega arith
  length-drop-le (suc n) [] = omega arith
  length-drop-le (suc n) (x ∷ xs) = omega (arith, length-drop-le n xs)

  length-drop-lt : (n : ℕ) (xs : List A) → 0 < n → 0 < length xs → length (drop n xs) < length xs
  length-drop-lt zero xs h k = elim h [ ]
  length-drop-lt (suc n) [] h k = elim k [ ]
  length-drop-lt (suc n) (x ∷ xs) h k = omega (arith, length-drop-le n xs)

  module _ (id_of : A → ℕ) where
    select-below :
        (c : ℕ) (xs : List A) → All (λ y. id_of y < c) xs → select (λ y. ltb (id_of y) c) xs ≡ xs
    unfolding select
    select-below c [] h = refl
    select-below c (x ∷ xs) h = ground (arith, h.0, select-below c xs h.1)

    -- The last id of a page is that of one of its rows, and so below a bound of all of them.
    last-lt :
        (b c : ℕ) (n : ℕ) (xs : List A)
        → All (λ y. id_of y < b) xs
        → last_id id_of (take n xs) ≡ some c
        → c < b
    unfolding last_id
    last-lt b c zero xs h e = cc e
    last-lt b c (suc n) [] h e = cc e
    last-lt b c (suc zero) (x ∷ xs) h e = ground (arith, h.0)
    last-lt b c (suc (suc n)) (x ∷ []) h e = ground (arith, h.0)
    last-lt b c (suc (suc n)) (x ∷ y ∷ xs) h e = last-lt b c (suc n) (y ∷ xs) h.1 e

    -- What is below the last id of a page is what stands behind the page.
    select-below-last :
        (n c : ℕ) (xs : List A)
        → IsFalling id_of xs
        → last_id id_of (take n xs) ≡ some c
        → select (λ y. ltb (id_of y) c) xs ≡ drop n xs
    unfolding select last_id
    select-below-last zero c xs f e = cc e
    select-below-last (suc n) c [] f e = refl
    select-below-last (suc zero) c (x ∷ xs) f e =
        let same : id_of x ≡ c = ground arith in
        subst (λ k. select (λ y. ltb (id_of y) k) (x ∷ xs) ≡ xs) same
          (ground (arith, select-below (id_of x) xs f.0))
    select-below-last (suc (suc n)) c (x ∷ []) f e =
        let same : id_of x ≡ c = ground arith in ground arith
    select-below-last (suc (suc n)) c (x ∷ y ∷ xs) f e =
        let lt = last-lt (id_of x) c (suc n) (y ∷ xs) f.0 e in
        ground (arith, lt, select-below-last (suc n) c (y ∷ xs) f.1 e)

    last-none : (n : ℕ) (xs : List A) → 0 < n → last_id id_of (take n xs) ≡ none → xs ≡ []
    unfolding last_id
    last-none zero xs h e = elim h [ ]
    last-none (suc n) [] h e = refl
    last-none (suc zero) (x ∷ xs) h e = cc e
    last-none (suc (suc n)) (x ∷ []) h e = cc e
    last-none (suc (suc n)) (x ∷ y ∷ xs) h e =
        let rest = last-none (suc n) (y ∷ xs) (omega arith) e in cc rest

    last-some : (n c : ℕ) (xs : List A) → last_id id_of (take n xs) ≡ some c → 0 < length xs
    unfolding last_id
    last-some zero c xs e = cc e
    last-some (suc n) c [] e = cc e
    last-some (suc n) c (x ∷ xs) e = omega arith

    -- The rows that the listing selects below a cursor.
    abbrev pub listed : (A → Bool) → List A → ℤ → List A
    listed p rows cursor = sort_desc id_of (select (λ r. p r && below cursor (id_of r)) rows)

    All-below :
        (p : A → Bool) (k : ℕ) (rows : List A)
        → All (λ y. id_of y < k) (select (λ r. p r && below (pos k) (id_of r)) rows)
    unfolding select
    All-below p k [] = tt
    All-below p k (x ∷ rows) = elim (Bool-cases (p x && ltb (id_of x) k)) [
      | inl keep ↦ rw keep (ground arith, All-below p k rows)
      | inr drop_it ↦ rw drop_it (All-below p k rows)
    ]

    select-none : (p : A → Bool) (rows : List A) → select (λ r. p r && false) rows ≡ []
    unfolding select
    select-none p [] = refl
    select-none p (x ∷ rows) = ground (arith, select-none p rows)

    -- The last id of a page is below the cursor that the page was asked for with.
    last-below :
        (p : A → Bool) (rows : List A) (cursor : ℤ) (n c : ℕ)
        → last_id id_of (take n (listed p rows cursor)) ≡ some c
        → (id : ℕ) → ltb id c ≡ true
        → below cursor id ≡ true
    unfolding sort_desc
    last-below p rows (pos k) n c e id h =
        let lt =
          last-lt k c n (listed p rows (pos k))
            (All-sort_desc id_of (λ y. id_of y < k) _ (All-below p k rows)) e in
        ground (arith, lt)
    last-below p rows (negsuc k) n c e id h =
        let gone =
          subst (λ l. last_id id_of (take n (sort_desc id_of l)) ≡ some c) (select-none p rows) e in
        absurd (omega (arith, last-some n c [] gone))

    narrowed :
        (p : A → Bool) (rows : List A) (cursor : ℤ) (c : ℕ)
        → ((id : ℕ) → ltb id c ≡ true → below cursor id ≡ true)
        → (x : A)
        → ((p x && below cursor (id_of x)) && ltb (id_of x) c) ≡ (p x && below (pos c) (id_of x))
    narrowed p rows cursor c h x = elim (Bool-cases (ltb (id_of x) c)) [
      | inl lt ↦ ground (arith, h (id_of x) lt)
      | inr ge ↦ ground arith
    ]

    -- The rows below the last id of a page are those behind the page.
    listed-last :
        (p : A → Bool) (rows : List A) (cursor : ℤ) (n c : ℕ)
        → IsUnique id_of rows
        → last_id id_of (take n (listed p rows cursor)) ≡ some c
        → listed p rows (pos c) ≡ drop n (listed p rows cursor)
    listed-last p rows cursor n c u e =
        let q : A → Bool = λ r. p r && below cursor (id_of r) in
        let first : A → Bool = λ y. ltb (id_of y) c in
        let unique = select-IsUnique id_of q rows u in
        ap (sort_desc id_of) (
          sym (
            select-select first q rows
            ∙ select-congr (λ x. q x && first x) (λ r. p r && below (pos c) (id_of r)) rows
                (narrowed p rows cursor c (last-below p rows cursor n c e))))
        ∙ sort_desc-select id_of first (select q rows) unique
        ∙ select-below-last n c (listed p rows cursor)
            (sort_desc-IsFalling id_of (select q rows) unique) e

    follow_end :
        (fuel : ℕ) (fetch : ℤ → List A) (cursor : ℤ)
        → last_id id_of (fetch cursor) ≡ none
        → follow id_of (suc fuel) fetch cursor ≡ []
    unfolding follow
    follow_end fuel fetch cursor e = rw (follow, e)

    follow_on :
        (fuel : ℕ) (fetch : ℤ → List A) (cursor : ℤ) (c : ℕ)
        → last_id id_of (fetch cursor) ≡ some c
        → follow id_of (suc fuel) fetch cursor ≡ fetch cursor ++ follow id_of fuel fetch (pos c)
    unfolding follow
    follow_on fuel fetch cursor c e = rw (follow, e)

    -- Enough rounds give all rows that the listing selects, in its order.
    pub follow-listed :
        (fuel limit : ℕ) (p : A → Bool) (rows : List A) (cursor : ℤ)
        → 0 < limit
        → IsUnique id_of rows
        → length (listed p rows cursor) < fuel
        → follow id_of fuel (λ c. page id_of limit c p rows) cursor ≡ listed p rows cursor
    unfolding page
    follow-listed zero limit p rows cursor pos_limit u lt = elim lt [ ]
    follow-listed (suc fuel) limit p rows cursor pos_limit u lt =
        let all_of = listed p rows cursor in
        let fetch : ℤ → List A = λ c. page id_of limit c p rows in
        elim (Option-cases (last_id id_of (take limit all_of))) [
          | inl end ↦ follow_end fuel fetch cursor end ∙ sym (last-none limit all_of pos_limit end)
          | inr (c, e) ↦
              let rest = listed-last p rows cursor limit c u e in
              let less = length-drop-lt limit all_of pos_limit (last-some limit c all_of e) in
              let later =
                follow-listed fuel limit p rows (pos c) pos_limit u
                  (omega (arith, ap length rest, less)) in
              follow_on fuel fetch cursor c e
              ∙ ap (λ t. take limit all_of ++ t) (later ∙ rest)
              ∙ take-append-drop limit all_of
        ]

    length-insert_desc : (x : A) (ys : List A) → length (insert_desc id_of x ys) ≡ suc (length ys)
    unfolding insert_desc
    length-insert_desc x [] = refl
    length-insert_desc x (y ∷ ys) = ground (arith, length-insert_desc x ys)

    length-sort_desc : (xs : List A) → length (sort_desc id_of xs) ≡ length xs
    unfolding sort_desc
    length-sort_desc [] = refl
    length-sort_desc (x ∷ xs) =
        length-insert_desc x (sort_desc id_of xs) ∙ ap suc (length-sort_desc xs)

    -- What a client has who asked for all pages: the rows that the listing selects, each once, in the
    -- order of falling ids.
    pub record IsListing (p : A → Bool) (cursor : ℤ) (rows given : List A) : Type ℓ where
      pub falling : IsFalling id_of given
      pub exact :
          (f : A → Bool) → any f given ≡ any (λ r. (p r && below cursor (id_of r)) && f r) rows

    pub follow-IsListing :
        (limit : ℕ) (p : A → Bool) (rows : List A) (cursor : ℤ)
        → 0 < limit
        → IsUnique id_of rows
        → IsListing p cursor rows
            (follow id_of (suc (length rows)) (λ c. page id_of limit c p rows) cursor)
    follow-IsListing limit p rows cursor pos_limit u =
        let q : A → Bool = λ r. p r && below cursor (id_of r) in
        let enough : length (listed p rows cursor) < suc (length rows) =
          omega (arith, length-sort_desc (select q rows), length-select-le q rows) in
        rw (follow-listed (suc (length rows)) limit p rows cursor pos_limit u enough) (record {
          falling = sort_desc-IsFalling id_of (select q rows) (select-IsUnique id_of q rows u);
          exact = λ f. any-sort_desc id_of f (select q rows) ∙ any-select f q rows;
        })

module _ {ℓ} {A : Type ℓ} where
  module _ (id_of : A → ℕ) where
    last_id-none : (xs : List A) → last_id id_of xs ≡ none → xs ≡ []
    unfolding last_id
    last_id-none [] h = refl
    last_id-none (x ∷ []) h = cc h
    last_id-none (x ∷ y ∷ ys) h = absurd (ground (arith, last_id-none (y ∷ ys) h))

    -- Cursors that are the last ids lead through the same pages.
    pub follow_cursors-follow :
        (fuel : ℕ) (fetch : ℤ → List A) (cursor : ℤ)
        → follow_cursors fuel (λ c. (fetch c, last_id id_of (fetch c))) cursor
          ≡ follow id_of fuel fetch cursor
    unfolding follow_cursors follow
    follow_cursors-follow zero fetch cursor = refl
    follow_cursors-follow (suc fuel) fetch cursor =
        elim (Option-cases (last_id id_of (fetch cursor))) [
          | inl e ↦ rw (e, follow_cursors, follow) (last_id-none (fetch cursor) e)
          | inr (c, e) ↦
              rw (e, follow_cursors, follow)
                (ap (λ t. fetch cursor ++ t) (follow_cursors-follow fuel fetch (pos c)))
        ]
