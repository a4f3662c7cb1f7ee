-- ===== src/Gate/TestFix/Rounds.antt =====
-- How a round of the loop counts its fingerprints.
use github_auto_dev.Base.{
  ℕ, suc, String, ◌≡◌, refl, sym, ◌∙◌, eq_iff, some, List, [], ◌∷◌, ◌++◌, true, false, arith,
  Bool-cases, inl, inr, In, here, there, if◌then◌else◌, has, str_eq, not, ◌&&◌,
}
use github_auto_dev.Base.Dict
use github_auto_dev.Gate.{GateResult}
use github_auto_dev.Gate.TestFix.{
  TestFixLoopInput, Seen, RoundRecord, unique, compute_fingerprints, count, mark, last_gate_of,
}

-- No text stands twice.
abbrev pub Distinct : List String → Type 0
Distinct [] = Unit
Distinct (x ∷ xs) = (has xs x ≡ false) × Distinct xs

has-unique :
    (seen xs : List String) (y : String) → has (unique seen xs) y ≡ (has xs y && not (has seen y))
unfolding unique
has-unique seen [] y = refl
has-unique seen (x ∷ xs) y = elim (Bool-cases (has seen x)) [
  | inl t ↦ rw t (ground (arith, eq_iff x y, has-unique seen xs y))
  | inr f ↦ rw f (ground (arith, eq_iff x y, has-unique (x ∷ seen) xs y))
]

unique-Distinct : (seen xs : List String) → Distinct (unique seen xs)
unfolding unique
unique-Distinct seen [] = tt
unique-Distinct seen (x ∷ xs) = elim (Bool-cases (has seen x)) [
  | inl t ↦ rw t (unique-Distinct seen xs)
  | inr f ↦
      rw f (ground (arith, eq_iff x x, has-unique (x ∷ seen) xs x), unique-Distinct (x ∷ seen) xs)
]

pub compute_fingerprints-Distinct :
    (i : TestFixLoopInput) (log : String) (gate : GateResult)
    → Distinct (compute_fingerprints i log gate)
unfolding compute_fingerprints
compute_fingerprints-Distinct i log gate = unique-Distinct [] _

count-set :
    (x fp : String) (n : ℕ) (seen : Seen)
    → count fp (Dict.set x n seen) ≡ (if str_eq x fp then n else count fp seen)
count-set x fp n seen = elim (Bool-cases (str_eq x fp)) [
  | inl t ↦ rw (Dict.get-set x fp n seen, t) refl
  | inr f ↦ rw (Dict.get-set x fp n seen, f) refl
]

-- Marking a round's fingerprints counts each of them once more.
pub count-mark :
    (fps : List String) (seen : Seen) (fp : String)
    → Distinct fps
    → count fp (mark fps seen) ≡ (if has fps fp then suc (count fp seen) else count fp seen)
unfolding mark
count-mark [] seen fp d = refl
count-mark (x ∷ xs) seen fp d =
    let rest = count-mark xs (Dict.set x (suc (count x seen)) seen) fp d.1 in
    let got = count-set x fp (suc (count x seen)) seen in
    elim (Bool-cases (str_eq x fp)) [
      | inl t ↦
          let same = (eq_iff x fp).0 t in
          rw t (rest ∙ rw (sym same) (rw (d.0, Dict.get-set_self x (suc (count x seen)) seen) refl))
      | inr f ↦ rw f (rest ∙ ground arith)
    ]

pub In-has : (xs : List String) (x : String) → In x xs → has xs x ≡ true
In-has [] x i = elim i [ ]
In-has (y ∷ ys) x (here e) = ground (arith, eq_iff y x)
In-has (y ∷ ys) x (there i) = ground (arith, In-has ys x i)

pub last_gate_of-append :
    (rs : List RoundRecord) (r : RoundRecord) → last_gate_of (rs ++ r ∷ []) ≡ some r.gate
last_gate_of-append [] r = refl
last_gate_of-append (x ∷ []) r = refl
last_gate_of-append (x ∷ y ∷ ys) r = last_gate_of-append (y ∷ ys) r
