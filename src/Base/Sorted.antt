-- ===== src/Base/Sorted.antt =====
-- Sorted lists of texts: two lists are the same when sorted exactly when they have the same elements,
-- each as often.
use Prim.Native.Nat.{ℕ, ◌+◌, ◌<◌}
use Prim.Native.String.{String}
use mathlib.Core.Path.{◌≡◌, refl}
use mathlib.Core.Logic.{inl, inr}
use mathlib.Core.Bool.{false}
use mathlib.Core.List.{List, [], ◌∷◌, ◌++◌}
use native.Mathlib.Omega.{arith}
use text.Mathlib.Text.{◌==◌ as str_eq}
use text.Mathlib.TextEquality.{eq_iff}
use text.Mathlib.TextPositions.{eq_refl}
use github_auto_dev.Base.Tests.{if◌then◌else◌, Bool-cases}
use github_auto_dev.Base.Lists.{All, All-map}
use github_auto_dev.Base.Text.{text_lt}
use github_auto_dev.Base.TextOrder.{text_lt_asym, text_lt_cotrans, text_lt_connex}
use github_auto_dev.Base.Sort.{insert, sort}

-- How often a text is in a list.
abbrev pub count : String → List String → ℕ
count s [] = 0
count s (x ∷ xs) = (if str_eq x s then 1 else 0) + count s xs

pub count-append : (g : String) (xs ys : List String) → count g (xs ++ ys) ≡ count g xs + count g ys
count-append g [] ys = omega arith
count-append g (x ∷ xs) ys = omega (arith, count-append g xs ys)

pub count-middle :
    (g : String) (xs : List String) (h : String) (ys : List String)
    → count g (xs ++ h ∷ ys) ≡ count g (h ∷ []) + count g (xs ++ ys)
count-middle g [] h ys = omega arith
count-middle g (x ∷ xs) h ys = omega (arith, count-middle g xs h ys)

count-insert : (s x : String) (ys : List String) → count s (insert text_lt x ys) ≡ count s (x ∷ ys)
unfolding insert
count-insert s x [] = refl
count-insert s x (y ∷ ys) = ground (arith, count-insert s x ys)

pub count-sort : (s : String) (xs : List String) → count s (sort text_lt xs) ≡ count s xs
unfolding sort
count-sort s [] = refl
count-sort s (x ∷ xs) = rw (count-insert s x (sort text_lt xs)) (ground (arith, count-sort s xs))

-- No text of a list is before this one.
abbrev IsFirst : String → List String → Type 0
IsFirst x = All (λ y. text_lt y x ≡ false)

abbrev IsSorted : List String → Type 0
IsSorted [] = Unit
IsSorted (x ∷ xs) = IsFirst x xs × IsSorted xs

insert-IsFirst :
    (z x : String) (ys : List String)
    → text_lt x z ≡ false
    → IsFirst z ys
    → IsFirst z (insert text_lt x ys)
unfolding insert
insert-IsFirst z x [] h f = (h, tt)
insert-IsFirst z x (y ∷ ys) h f = elim (Bool-cases (text_lt y x)) [
  | inl t ↦ rw t (f.0, insert-IsFirst z x ys h f.1)
  | inr n ↦ rw n (h, f)
]

IsFirst-trans :
    (x y : String) (ys : List String) → text_lt y x ≡ false → IsFirst y ys → IsFirst x ys
IsFirst-trans x y ys h f =
    All-map (λ z. text_lt z y ≡ false) (λ z. text_lt z x ≡ false)
      (λ z k. elim (Bool-cases (text_lt z x)) [
        | inl t ↦ let u = text_lt_cotrans z y x t k in cc
        | inr n ↦ n
      ])
      ys f

insert-IsSorted : (x : String) (ys : List String) → IsSorted ys → IsSorted (insert text_lt x ys)
unfolding insert
insert-IsSorted x [] h = (tt, tt)
insert-IsSorted x (y ∷ ys) h = elim (Bool-cases (text_lt y x)) [
  | inl t ↦ rw t (insert-IsFirst y x ys (text_lt_asym y x t) h.0, insert-IsSorted x ys h.1)
  | inr n ↦ rw n ((n, IsFirst-trans x y ys n h.0), h)
]

pub sort-IsSorted : (xs : List String) → IsSorted (sort text_lt xs)
unfolding sort
sort-IsSorted [] = tt
sort-IsSorted (x ∷ xs) = insert-IsSorted x (sort text_lt xs) (sort-IsSorted xs)

text_lt_irrefl : (s : String) → text_lt s s ≡ false
text_lt_irrefl s = elim (Bool-cases (text_lt s s)) [ inl t ↦ text_lt_asym s s t | inr n ↦ n ]

first_counted :
    (x s : String) (xs : List String) → IsFirst x xs → 0 < count s xs → text_lt s x ≡ false
first_counted x s [] f h = absurd (ground arith)
first_counted x s (y ∷ ys) f h = elim (Bool-cases (str_eq y s)) [
  | inl e ↦ rw (← (eq_iff y s).0 e) f.0
  | inr n ↦ first_counted x s ys f.1 (ground arith)
]

counted_self : (x : String) (xs : List String) → 0 < count x (x ∷ xs)
counted_self x xs = rw (eq_refl x) (ground arith)

-- Sorted lists with the same counts are the same.
pub sorted_unique :
    (xs ys : List String)
    → IsSorted xs
    → IsSorted ys
    → ((s : String) → count s xs ≡ count s ys)
    → xs ≡ ys
sorted_unique [] [] h k same = refl
sorted_unique [] (y ∷ ys) h k same =
    let p = counted_self y ys in let q = same y in absurd (ground arith)
sorted_unique (x ∷ xs) [] h k same =
    let p = counted_self x xs in let q = same x in absurd (ground arith)
sorted_unique (x ∷ xs) (y ∷ ys) h k same =
    let in_ys : 0 < count x (y ∷ ys) = rw (← same x) (counted_self x xs) in
    let in_xs : 0 < count y (x ∷ xs) = rw (same y) (counted_self y ys) in
    let e : x ≡ y =
      text_lt_connex x y (first_counted y x (y ∷ ys) (text_lt_irrefl y, k.0) in_ys)
        (first_counted x y (x ∷ xs) (text_lt_irrefl x, h.0) in_xs) in
    let rest : (s : String) → count s xs ≡ count s ys = λ s. let q = same s in ground (arith, e) in
    let e' = sorted_unique xs ys h.1 k.1 rest in rw (e, e') refl
