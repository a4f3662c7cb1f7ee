-- ===== src/Reconcile/Drift/SameTexts.antt =====
-- The comparison of reviews and of checks, which is one of multisets.
use github_auto_dev.Base.{
  String, ◌≡◌, refl, sym, ap, ◌∙◌, ◌↔◌, eq_iff, eq_refl, true, List, [], ◌∷◌, map, arith, length,
}
use github_auto_dev.Base.Sort.{insert, sort}
use github_auto_dev.Base.Text.{text_lt}
use github_auto_dev.Base.Sorted.{count, count-sort, sort-IsSorted, sorted_unique}
use github_auto_dev.Reconcile.Drift.{
  every_same, same_sorted, review_text, expected_text, live_text, Review, ExpectedCheck, LiveCheck,
  same_reviews, same_checks,
}

-- The same elements, each as often.
abbrev pub SameCounts : List String → List String → Type 0
SameCounts xs ys = (s : String) → count s xs ≡ count s ys

every_same_refl : (xs : List String) → every_same xs xs ≡ true
every_same_refl [] = refl
every_same_refl (x ∷ xs) = ground (arith, eq_refl x, every_same_refl xs)

every_same_sound : (xs ys : List String) → length xs ≡ length ys → every_same xs ys ≡ true → xs ≡ ys
every_same_sound [] [] l h = refl
every_same_sound [] (y ∷ ys) l h = absurd (omega arith)
every_same_sound (x ∷ xs) [] l h = cc
every_same_sound (x ∷ xs) (y ∷ ys) l h =
    let e : x ≡ y = ground (arith, eq_iff x y) in
    let e' = every_same_sound xs ys (omega arith) (ground arith) in rw (e, e') refl

length-insert : (x : String) (ys : List String) → length (insert text_lt x ys) ≡ length (x ∷ ys)
unfolding insert
length-insert x [] = refl
length-insert x (y ∷ ys) = ground (arith, length-insert x ys)

length-sort : (xs : List String) → length (sort text_lt xs) ≡ length xs
unfolding sort
length-sort [] = refl
length-sort (x ∷ xs) = rw (length-insert x (sort text_lt xs)) (ground (arith, length-sort xs))

same_sorted_iff :
    (xs ys : List String)
    → ((length xs ≡ length ys) × (same_sorted xs ys ≡ true)) ↔ SameCounts xs ys
unfolding same_sorted
same_sorted_iff xs ys = (
  λ h s.
      let l : length (sort text_lt xs) ≡ length (sort text_lt ys) =
        rw (length-sort xs, length-sort ys) h.0 in
      sym (count-sort s xs)
      ∙ ap (count s) (every_same_sound (sort text_lt xs) (sort text_lt ys) l h.1)
      ∙ count-sort s ys,
  λ h.
      let e =
        sorted_unique (sort text_lt xs) (sort text_lt ys) (sort-IsSorted xs) (sort-IsSorted ys)
          (λ s. count-sort s xs ∙ h s ∙ sym (count-sort s ys)) in
      (
        sym (length-sort xs) ∙ ap length e ∙ length-sort ys,
        rw e (every_same_refl (sort text_lt ys)),
      ),
)

length-map {ℓ} : {A : Type ℓ} (f : A → String) (xs : List A) → length (map f xs) ≡ length xs
length-map f [] = refl
length-map f (x ∷ xs) = omega (arith, length-map f xs)

-- Reviews are the same exactly when the same ones occur, each as often, in whatever order.
pub same_reviews_iff :
    (a b : List Review)
    → (same_reviews a b ≡ true) ↔ SameCounts (map review_text a) (map review_text b)
unfolding same_reviews
same_reviews_iff a b =
    let both = same_sorted_iff (map review_text a) (map review_text b) in
    let la = length-map review_text a in
    let lb = length-map review_text b in
    (λ h. both.0 (ground arith), λ h. let r = both.1 h in ground arith)

pub same_checks_iff :
    (a : List ExpectedCheck) (b : List LiveCheck)
    → (same_checks a b ≡ true) ↔ SameCounts (map expected_text a) (map live_text b)
unfolding same_checks
same_checks_iff a b =
    let both = same_sorted_iff (map expected_text a) (map live_text b) in
    let la = length-map expected_text a in
    let lb = length-map live_text b in
    (λ h. both.0 (ground arith), λ h. let r = both.1 h in ground arith)
