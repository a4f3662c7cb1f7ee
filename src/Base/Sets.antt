-- ===== src/Base/Sets.antt =====
-- The source's `Set` of texts: its elements in the order of their first insertion.
use Prim.Native.String.{String}
use mathlib.Core.Path.{◌≡◌, refl, sym, ◌∙◌}
use mathlib.Core.Logic.{◌↔◌, inl, inr}
use mathlib.Core.Bool.{Bool, true, false, not, ◌&&◌, ◌||◌}
use mathlib.Core.List.{List, [], ◌∷◌, ◌++◌}
use native.Mathlib.Omega.{arith}
use text.Mathlib.Text.{◌==◌ as str_eq}
use text.Mathlib.TextEquality.{eq_iff}
use github_auto_dev.Base.Tests.{Bool-cases}
use github_auto_dev.Base.Lists.{
  is_empty, All-In, In-All, select-is_empty, has, select, In, here, there, In-cons,
}

-- `new Set(xs)`.
unfoldable pub unique : List String → List String
unique [] = []
unique (x ∷ xs) = x ∷ select (λ y. not (str_eq y x)) (unique xs)

-- The elements of one set that are not in another.
abbrev pub minus : List String → List String → List String
minus xs ys = select (λ x. not (has ys x)) xs

pub has-append : (xs ys : List String) (s : String) → has (xs ++ ys) s ≡ (has xs s || has ys s)
has-append [] ys s = refl
has-append (x ∷ xs) ys s = ground (arith, has-append xs ys s)

pub has-select :
    (p : String → Bool) (xs : List String) (s : String) → has (select p xs) s ≡ (has xs s && p s)
unfolding select
has-select p [] s = refl
has-select p (x ∷ xs) s = ground (arith, has-select p xs s, eq_iff x s)

pub has-unique : (xs : List String) (s : String) → has (unique xs) s ≡ has xs s
unfolding unique
has-unique [] s = refl
has-unique (x ∷ xs) s =
    let h = has-select (λ y. not (str_eq y x)) (unique xs) s in
    ground (arith, has-unique xs s, eq_iff x s, eq_iff s x)

pub has_iff : (xs : List String) (s : String) → (has xs s ≡ true) ↔ In s xs
has_iff [] s = (λ h. cc, λ i. elim i [ ])
has_iff (x ∷ xs) s = (
  λ h. elim (Bool-cases (str_eq x s)) [
    | inl e ↦ here (sym ((eq_iff x s).0 e))
    | inr n ↦ there ((has_iff xs s).0 (ground arith))
  ],
  λ i. elim (In-cons s x xs i) [
    | inl e ↦ ground (arith, eq_iff x s)
    | inr j ↦ ground (arith, (has_iff xs s).1 j)
  ],
)

-- Nothing is in one set only exactly when it is part of the other.
pub minus-is_empty :
    (xs ys : List String)
    → (is_empty (minus xs ys) ≡ true) ↔ ((s : String) → has xs s ≡ true → has ys s ≡ true)
minus-is_empty xs ys =
    let e = select-is_empty (λ x. not (has ys x)) xs in
    (
      λ h s i.
          let at_s = All-In (λ x. not (has ys x) ≡ false) s xs (e.0 h) ((has_iff xs s).0 i) in
          ground arith,
      λ sub. e.1 (
          In-All (λ x. not (has ys x) ≡ false) xs
            (λ x i. let y = sub x ((has_iff xs x).1 i) in ground arith)),
    )

-- Nothing is in one of two sets only exactly when they have the same elements.
pub differences-are_empty :
    (xs ys : List String)
    → ((is_empty (minus (unique xs) (unique ys)) ≡ true)
        × (is_empty (minus (unique ys) (unique xs)) ≡ true))
      ↔ ((s : String) → has xs s ≡ has ys s)
differences-are_empty xs ys =
    let left = minus-is_empty (unique xs) (unique ys) in
    let right = minus-is_empty (unique ys) (unique xs) in
    (
      λ h s.
          let l = left.0 h.0 s in
          let r = right.0 h.1 s in
          let ux = has-unique xs s in let uy = has-unique ys s in ground arith,
      λ h. (
        left.1 (λ s i. has-unique ys s ∙ sym (h s) ∙ sym (has-unique xs s) ∙ i),
        right.1 (λ s i. has-unique xs s ∙ h s ∙ sym (has-unique ys s) ∙ i),
      ),
    )
