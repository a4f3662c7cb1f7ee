-- ===== src/Base/Lists.antt =====
-- Lists over the native numbers, the Boolean searches of the source, and predicates on lists.
use Prim.Native.String.{String}
use text.Mathlib.Text.{◌==◌ as str_eq}
use Prim.Native.Nat.{ℕ, suc, ◌+◌}
use mathlib.Core.Path.{◌≡◌, refl, sym, ap, ◌∙◌}
use mathlib.Core.Logic.{◌⊎◌, inl, inr, ◌↔◌}
use mathlib.Core.Bool.{Bool, true, false, ◌&&◌, ◌||◌}
use mathlib.Core.Option.{Option, none, some}
use mathlib.Core.List.{List, [], ◌∷◌, ◌++◌}
use native.Mathlib.Omega.{arith}
use github_auto_dev.Base.Tests.{if◌then◌else◌, Bool-cases}

module _ {ℓ} {A : Type ℓ} where
  abbrev pub length : List A → ℕ
  length [] = 0
  length (x ∷ xs) = suc (length xs)

  pub length-append : (xs ys : List A) → length (xs ++ ys) ≡ length xs + length ys
  length-append [] ys = omega arith
  length-append (x ∷ xs) ys = omega (arith, length-append xs ys)

  abbrev pub is_empty : List A → Bool
  is_empty [] = true
  is_empty (x ∷ xs) = false

  -- `xs.find(p)`.
  unfoldable pub find : (A → Bool) → List A → Option A
  find p [] = none
  find p (x ∷ xs) = if p x then some x else find p xs

  -- `xs.filter(p)`.
  unfoldable pub select : (A → Bool) → List A → List A
  select p [] = []
  select p (x ∷ xs) = let rest = select p xs in if p x then x ∷ rest else rest

  -- `xs.some(p)`.
  unfoldable pub any : (A → Bool) → List A → Bool
  any p [] = false
  any p (x ∷ xs) = p x || any p xs

  -- `xs.every(p)`.
  unfoldable pub all : (A → Bool) → List A → Bool
  all p [] = true
  all p (x ∷ xs) = p x && all p xs

  -- `xs[xs.length - 1]`.
  unfoldable pub last? : List A → Option A
  last? [] = none
  last? (x ∷ []) = some x
  last? (x ∷ y ∷ ys) = last? (y ∷ ys)

  abbrev pub All {κ} : (A → Type κ) → List A → Type κ
  All P [] = Unit
  All P (x ∷ xs) = P x × All P xs

  pub data In (a : A) : List A → Type ℓ where
    here : {x : A} {xs : List A} → a ≡ x → In a (x ∷ xs)
    there : {x : A} {xs : List A} → In a xs → In a (x ∷ xs)

  pub All-append {κ} : (P : A → Type κ) (xs ys : List A) → All P xs → All P ys → All P (xs ++ ys)
  All-append P [] ys hx hy = hy
  All-append P (x ∷ xs) ys hx hy = (hx.0, All-append P xs ys hx.1 hy)

  -- What `find` returns is an element that passes the test.
  pub find_sound :
      (p : A → Bool) (xs : List A) (a : A) → find p xs ≡ some a → In a xs × (p a ≡ true)
  unfolding find
  find_sound p [] a h = cc
  find_sound p (x ∷ xs) a h = elim (Bool-cases (p x)) [
    | inl t ↦ let e : a ≡ x = ground arith in (here e, rw e t)
    | inr f ↦ let r = find_sound p xs a (ground arith) in (there r.0, r.1)
  ]

  -- When `find` returns nothing, no element passes.
  pub find-none : (p : A → Bool) (xs : List A) → find p xs ≡ none → All (λ x. p x ≡ false) xs
  unfolding find
  find-none p [] h = tt
  find-none p (x ∷ xs) h = elim (Bool-cases (p x)) [
    | inl t ↦ absurd (ground arith)
    | inr f ↦ (f, find-none p xs (ground arith))
  ]

  pub All-In {κ} : (P : A → Type κ) (a : A) (xs : List A) → All P xs → In a xs → P a
  All-In P a [] h i = elim i [ ]
  All-In P a (x ∷ xs) h (here e) = rw e h.0
  All-In P a (x ∷ xs) h (there i) = All-In P a xs h.1 i

  pub In-All {κ} : (P : A → Type κ) (xs : List A) → ((a : A) → In a xs → P a) → All P xs
  In-All P [] h = tt
  In-All P (x ∷ xs) h = (h x (here refl), In-All P xs (λ a i. h a (there i)))

  pub In-append_left : (a : A) (xs ys : List A) → In a xs → In a (xs ++ ys)
  In-append_left a [] ys i = elim i [ ]
  In-append_left a (x ∷ xs) ys (here e) = here e
  In-append_left a (x ∷ xs) ys (there i) = there (In-append_left a xs ys i)

  pub In-append_right : (a : A) (xs ys : List A) → In a ys → In a (xs ++ ys)
  In-append_right a [] ys i = i
  In-append_right a (x ∷ xs) ys i = there (In-append_right a xs ys i)

  pub In-cons : (a x : A) (xs : List A) → In a (x ∷ xs) → (a ≡ x) ⊎ In a xs
  In-cons a x xs (here e) = inl e
  In-cons a x xs (there i) = inr i

  -- What `filter` keeps was there and passes the test.
  pub select_sound :
      (p : A → Bool) (xs : List A) (a : A) → In a (select p xs) → In a xs × (p a ≡ true)
  unfolding select
  select_sound p [] a i = elim i [ ]
  select_sound p (x ∷ xs) a i = elim (Bool-cases (p x)) [
    | inl t ↦ elim (In-cons a x (select p xs) (rw t at i)) [
      | inl e ↦ (here e, rw e t)
      | inr j ↦ let r = select_sound p xs a j in (there r.0, r.1)
    ]
    | inr f ↦ let r = select_sound p xs a (rw f at i) in (there r.0, r.1)
  ]

  -- `filter` keeps whatever passes.
  pub select_complete :
      (p : A → Bool) (xs : List A) (a : A) → In a xs → p a ≡ true → In a (select p xs)
  unfolding select
  select_complete p [] a i t = elim i [ ]
  select_complete p (x ∷ xs) a (here e) t = rw (ap p (sym e) ∙ t) (here e)
  select_complete p (x ∷ xs) a (there i) t = elim (Bool-cases (p x)) [
    | inl u ↦ rw u (there (select_complete p xs a i t))
    | inr f ↦ rw f (select_complete p xs a i t)
  ]

  -- One that passes is enough for `some`.
  pub any-In : (p : A → Bool) (xs : List A) (a : A) → In a xs → p a ≡ true → any p xs ≡ true
  unfolding any
  any-In p [] a i t = elim i [ ]
  any-In p (x ∷ xs) a (here e) t = let u = ap p (sym e) ∙ t in ground arith
  any-In p (x ∷ xs) a (there i) t = ground (arith, any-In p xs a i t)

  -- `some` is true exactly when `find` finds.
  pub any-find : (p : A → Bool) (xs : List A) → any p xs ≡ false → find p xs ≡ none
  unfolding any find
  any-find p [] h = refl
  any-find p (x ∷ xs) h = ground (arith, any-find p xs)

  -- Nothing is left exactly when nothing passes.
  pub select-is_empty :
      (p : A → Bool) (xs : List A) → (is_empty (select p xs) ≡ true) ↔ All (λ x. p x ≡ false) xs
  unfolding select
  select-is_empty p [] = (λ _. tt, λ _. refl)
  select-is_empty p (x ∷ xs) = elim (Bool-cases (p x)) [
    | inl t ↦ rw t (λ h. cc, λ h. cc (h.0))
    | inr f ↦ rw f (λ h. (refl, (select-is_empty p xs).0 h), λ h. (select-is_empty p xs).1 h.1)
  ]

  -- What follows from a predicate pointwise follows on a whole list.
  pub All-map {κ μ} :
      (P : A → Type κ) (Q : A → Type μ)
      → ((x : A) → P x → Q x)
      → (xs : List A) → All P xs
      → All Q xs
  All-map P Q f [] h = tt
  All-map P Q f (x ∷ xs) h = (f x h.0, All-map P Q f xs h.1)

  pub is_empty-append : (xs ys : List A) → is_empty (xs ++ ys) ≡ (is_empty xs && is_empty ys)
  is_empty-append [] ys = refl
  is_empty-append (x ∷ xs) ys = refl

-- `set.has(s)`.
abbrev pub has : List String → String → Bool
has [] s = false
has (x ∷ xs) s = str_eq x s || has xs s
