-- ===== src/Paging/Order.antt =====
-- Sorting by falling ids: the order is strict if no id stands twice, and it commutes with selecting.
use migration_platform.Prelude.{
  ℕ, ◌<◌, ◌≢◌, ◌≡◌, refl, ap, ◌∙◌, Bool, ◌&&◌, ◌||◌, List, [], ◌∷◌, All, any, length, arith,
  Bool-cases, inl, inr, ltb, if◌then◌else◌, ◌≤◌,
}
use migration_platform.Paging.{select, insert_desc, sort_desc}

module _ {ℓ} {A : Type ℓ} where
  pub select-select :
      (p q : A → Bool) (xs : List A) → select p (select q xs) ≡ select (λ x. q x && p x) xs
  unfolding select
  select-select p q [] = refl
  select-select p q (x ∷ xs) = ground (arith, select-select p q xs)

  pub select-congr :
      (p q : A → Bool) (xs : List A) → ((x : A) → p x ≡ q x) → select p xs ≡ select q xs
  unfolding select
  select-congr p q [] h = refl
  select-congr p q (x ∷ xs) h = ground (arith, h x, select-congr p q xs h)

  pub length-select-le : (p : A → Bool) (xs : List A) → length (select p xs) ≤ length xs
  unfolding select
  length-select-le p [] = omega arith
  length-select-le p (x ∷ xs) = ground (arith, length-select-le p xs)

  pub any-select : (f p : A → Bool) (xs : List A) → any f (select p xs) ≡ any (λ x. p x && f x) xs
  unfolding select
  any-select f p [] = refl
  any-select f p (x ∷ xs) = ground (arith, any-select f p xs)

  All-select {κ} : (P : A → Type κ) (p : A → Bool) (xs : List A) → All P xs → All P (select p xs)
  unfolding select
  All-select P p [] h = tt
  All-select P p (x ∷ xs) h = elim (Bool-cases (p x)) [
    | inl keep ↦ rw keep (h.0, All-select P p xs h.1)
    | inr drop_it ↦ rw drop_it (All-select P p xs h.1)
  ]

  module _ (id_of : A → ℕ) where
    -- No id stands twice, and the ids fall.
    abbrev pub IsUnique : List A → Type 0
    IsUnique [] = Unit
    IsUnique (x ∷ xs) = All (λ y. id_of y ≢ id_of x) xs × IsUnique xs

    abbrev pub IsFalling : List A → Type 0
    IsFalling [] = Unit
    IsFalling (x ∷ xs) = All (λ y. id_of y < id_of x) xs × IsFalling xs

    pub select-IsUnique : (p : A → Bool) (xs : List A) → IsUnique xs → IsUnique (select p xs)
    unfolding select
    select-IsUnique p [] u = tt
    select-IsUnique p (x ∷ xs) u = elim (Bool-cases (p x)) [
      | inl keep ↦ rw keep (All-select (λ y. id_of y ≢ id_of x) p xs u.0, select-IsUnique p xs u.1)
      | inr drop_it ↦ rw drop_it (select-IsUnique p xs u.1)
    ]

    All-insert_desc {κ} :
        (P : A → Type κ) (x : A) (ys : List A) → P x → All P ys → All P (insert_desc id_of x ys)
    unfolding insert_desc
    All-insert_desc P x [] px h = (px, tt)
    All-insert_desc P x (y ∷ ys) px h = elim (Bool-cases (ltb (id_of y) (id_of x))) [
      | inl first ↦ rw first (px, h)
      | inr later ↦ rw later (h.0, All-insert_desc P x ys px h.1)
    ]

    pub All-sort_desc {κ} : (P : A → Type κ) (xs : List A) → All P xs → All P (sort_desc id_of xs)
    unfolding sort_desc
    All-sort_desc P [] h = tt
    All-sort_desc P (x ∷ xs) h =
        All-insert_desc P x (sort_desc id_of xs) h.0 (All-sort_desc P xs h.1)

    All-lt_trans :
        (m n : ℕ) (xs : List A) → m < n → All (λ y. id_of y < m) xs → All (λ y. id_of y < n) xs
    All-lt_trans m n [] h a = tt
    All-lt_trans m n (x ∷ xs) h a = (omega (arith, a.0), All-lt_trans m n xs h a.1)

    insert_desc-IsFalling :
        (x : A) (ys : List A)
        → All (λ y. id_of y ≢ id_of x) ys
        → IsFalling ys
        → IsFalling (insert_desc id_of x ys)
    unfolding insert_desc
    insert_desc-IsFalling x [] u f = (tt, tt)
    insert_desc-IsFalling x (y ∷ ys) u f = elim (Bool-cases (ltb (id_of y) (id_of x))) [
      | inl first ↦
          let lt : id_of y < id_of x = ground arith in
          rw first ((lt, All-lt_trans (id_of y) (id_of x) ys lt f.0), f)
      | inr later ↦
          let lt : id_of x < id_of y = ground (arith, u.0) in
          rw later (
            All-insert_desc (λ z. id_of z < id_of y) x ys lt f.0,
            insert_desc-IsFalling x ys u.1 f.1,
          )
    ]

    pub sort_desc-IsFalling : (xs : List A) → IsUnique xs → IsFalling (sort_desc id_of xs)
    unfolding sort_desc
    sort_desc-IsFalling [] u = tt
    sort_desc-IsFalling (x ∷ xs) u =
        insert_desc-IsFalling x (sort_desc id_of xs) (All-sort_desc (λ y. id_of y ≢ id_of x) xs u.0)
          (sort_desc-IsFalling xs u.1)

    insert_desc-first :
        (x : A) (ys : List A) → All (λ y. id_of y < id_of x) ys → insert_desc id_of x ys ≡ x ∷ ys
    unfolding insert_desc
    insert_desc-first x [] h = refl
    insert_desc-first x (y ∷ ys) h = ground (arith, h.0)

    select-insert_desc :
        (p : A → Bool) (x : A) (ys : List A)
        → IsFalling ys
        → select p (insert_desc id_of x ys)
          ≡ (if p x then insert_desc id_of x (select p ys) else select p ys)
    unfolding select insert_desc
    select-insert_desc p x [] f = ground arith
    select-insert_desc p x (y ∷ ys) f = elim (Bool-cases (ltb (id_of y) (id_of x))) [
      | inl first ↦
          let lt : id_of y < id_of x = ground arith in
          let rest =
            All-select (λ z. id_of z < id_of x) p ys (All-lt_trans (id_of y) (id_of x) ys lt f.0) in
          ground (arith, insert_desc-first x (select p ys) rest)
      | inr later ↦ ground (arith, select-insert_desc p x ys f.1)
    ]

    pub sort_desc-select :
        (p : A → Bool) (xs : List A)
        → IsUnique xs
        → sort_desc id_of (select p xs) ≡ select p (sort_desc id_of xs)
    unfolding select sort_desc
    sort_desc-select p [] u = refl
    sort_desc-select p (x ∷ xs) u =
        let swap = select-insert_desc p x (sort_desc id_of xs) (sort_desc-IsFalling xs u.1) in
        let rest = sort_desc-select p xs u.1 in
        elim (Bool-cases (p x)) [
          | inl keep ↦ ground (arith, swap, rest)
          | inr drop_it ↦ ground (arith, swap, rest)
        ]

    any-insert_desc :
        (f : A → Bool) (x : A) (ys : List A) → any f (insert_desc id_of x ys) ≡ f x || any f ys
    unfolding insert_desc
    any-insert_desc f x [] = refl
    any-insert_desc f x (y ∷ ys) = ground (arith, any-insert_desc f x ys)

    pub any-sort_desc : (f : A → Bool) (xs : List A) → any f (sort_desc id_of xs) ≡ any f xs
    unfolding sort_desc
    any-sort_desc f [] = refl
    any-sort_desc f (x ∷ xs) =
        any-insert_desc f x (sort_desc id_of xs) ∙ ap (λ b. f x || b) (any-sort_desc f xs)
