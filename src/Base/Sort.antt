-- ===== src/Base/Sort.antt =====
-- The stable `sort` of arrays, by a Boolean test that says when one element goes before another.
use mathlib.Core.Path.{◌≡◌}
use mathlib.Core.Logic.{◌⊎◌, inl, inr}
use mathlib.Core.Bool.{Bool}
use mathlib.Core.List.{List, [], ◌∷◌}
use github_auto_dev.Base.Tests.{if◌then◌else◌, Bool-cases}
use github_auto_dev.Base.Lists.{In, here, there, In-cons}

module _ {ℓ} {A : Type ℓ} (before : A → A → Bool) where
  -- `x` stands before the first element that does not go before it.
  unfoldable pub insert : A → List A → List A
  insert x [] = x ∷ []
  insert x (y ∷ ys) = let later = y ∷ insert x ys in if before y x then later else x ∷ y ∷ ys

  unfoldable pub sort : List A → List A
  unfolding insert
  sort [] = []
  sort (x ∷ xs) = insert x (sort xs)

  insert-In : (x a : A) (ys : List A) → In a (insert x ys) → (a ≡ x) ⊎ In a ys
  unfolding insert
  insert-In x a [] i = In-cons a x [] i
  insert-In x a (y ∷ ys) i = elim (Bool-cases (before y x)) [
    | inl t ↦ elim (In-cons a y (insert x ys) (rw t at i)) [
      | inl e ↦ inr (here e)
      | inr j ↦ elim (insert-In x a ys j) [ inl e ↦ inl e | inr k ↦ inr (there k) ]
    ]
    | inr f ↦ In-cons a x (y ∷ ys) (rw f at i)
  ]

  -- Sorting adds nothing.
  pub sort-In : (a : A) (xs : List A) → In a (sort xs) → In a xs
  unfolding sort
  sort-In a [] i = i
  sort-In a (x ∷ xs) i = elim (insert-In x a (sort xs) i) [
    | inl e ↦ here e
    | inr j ↦ there (sort-In a xs j)
  ]

  In-insert_self : (x a : A) (ys : List A) → a ≡ x → In a (insert x ys)
  unfolding insert
  In-insert_self x a [] e = here e
  In-insert_self x a (y ∷ ys) e = elim (Bool-cases (before y x)) [
    | inl t ↦ rw t (there (In-insert_self x a ys e))
    | inr f ↦ rw f (here e)
  ]

  In-insert : (x a : A) (ys : List A) → In a ys → In a (insert x ys)
  unfolding insert
  In-insert x a [] i = elim i [ ]
  In-insert x a (y ∷ ys) i = elim (Bool-cases (before y x)) [
    | inl t ↦ rw t (elim (In-cons a y ys i) [ inl e ↦ here e | inr j ↦ there (In-insert x a ys j) ])
    | inr f ↦ rw f (there i)
  ]

  -- Sorting loses nothing.
  pub In-sort : (a : A) (xs : List A) → In a xs → In a (sort xs)
  unfolding sort
  In-sort a [] i = i
  In-sort a (x ∷ xs) i = elim (In-cons a x xs i) [
    | inl e ↦ In-insert_self x a (sort xs) e
    | inr j ↦ In-insert x a (sort xs) (In-sort a xs j)
  ]
