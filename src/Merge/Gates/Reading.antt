-- ===== src/Merge/Gates/Reading.antt =====
-- What each green gate says of the signals that it was read from.
use github_auto_dev.Base.{
  ◌≡◌, refl, ◌↔◌, Option, none, some, List, [], ◌∷◌, Bool, true, false, not, ◌&&◌, arith, eq_iff,
  str_eq, In, here, select_sound, select_complete, find_sound, is_empty,
}
use github_auto_dev.Base.Dict
use github_auto_dev.Base.Sort
use github_auto_dev.Db.Findings.{
  FindingRow, Rows, is_open, is_number, not_later, find_by_pr, find_blocking_by_pr,
}
use github_auto_dev.Merge.Gates.{
  TestGate, HumanApproval, RiskClassification, AiReview, is_code, ReadInput, read_test,
  read_approval, read_risk, code_review, security_review, completed?, blocking_at_head,
}

abbrev pub TestGreen : ReadInput → Option TestGate → Type 0
TestGreen i none = ⊥
TestGreen i (some t) = (t.head ≡ i.head) × (t.base ≡ i.base) × (t.passed ≡ true)

abbrev pub Approved : ReadInput → Option HumanApproval → Type 0
Approved i none = ⊥
Approved i (some a) = a.head ≡ i.head

abbrev pub Classified : ReadInput → Option RiskClassification → Type 0
Classified i none = ⊥
Classified i (some r) = r.head ≡ i.head

pub read_test-passed_iff :
    (i : ReadInput) (t : Option TestGate) → ((read_test i t).0.passed ≡ true) ↔ TestGreen i t
read_test-passed_iff i none = (λ h. cc, λ h. absurd h)
read_test-passed_iff i (some t) = ground (arith, eq_iff t.head i.head, eq_iff t.base i.base)

pub read_approval-passed_iff :
    (i : ReadInput) (a : Option HumanApproval)
    → ((read_approval i a).0.passed ≡ true) ↔ Approved i a
read_approval-passed_iff i none = (λ h. cc, λ h. absurd h)
read_approval-passed_iff i (some a) = ground (arith, eq_iff a.head i.head)

-- Given the human gate, the risk gate only asks for a classification at the head.
pub read_risk-passed_iff :
    (i : ReadInput) (r : Option RiskClassification)
    → ((read_risk i r true).0.passed ≡ true) ↔ Classified i r
read_risk-passed_iff i none = (λ h. cc, λ h. absurd h)
read_risk-passed_iff i (some r) = ground (arith, eq_iff r.head i.head)

-- A review of the class that was completed at the current head.
abbrev pub IsReview : ReadInput → Bool → AiReview → Type 0
IsReview i class r = (is_code r.reviewer ≡ class) × (r.head ≡ i.head) × (r.completed ≡ true)

completed-some :
    (o : Option AiReview)
    → completed? o ≡ true
    → (r : AiReview) × (o ≡ some r) × (r.completed ≡ true)
completed-some none h = cc
completed-some (some r) h = (r, refl, h)

pub code_review_sound :
    (i : ReadInput) (reviews : List AiReview)
    → completed? (code_review i reviews) ≡ true
    → (r : AiReview) × In r reviews × IsReview i true r
code_review_sound i reviews h =
    let (r, found, done) = completed-some (code_review i reviews) h in
    let (kept, is) = find_sound (λ r. is_code r.reviewer) _ r found in
    let (inside, at) = select_sound (λ r. str_eq r.head i.head) reviews r kept in
    (r, inside, (is, (eq_iff _ _).0 at, done))

pub security_review_sound :
    (i : ReadInput) (reviews : List AiReview)
    → completed? (security_review i reviews) ≡ true
    → (r : AiReview) × In r reviews × IsReview i false r
security_review_sound i reviews h =
    let (r, found, done) = completed-some (security_review i reviews) h in
    let (kept, is) = find_sound (λ r. not (is_code r.reviewer)) _ r found in
    let (inside, at) = select_sound (λ r. str_eq r.head i.head) reviews r kept in
    (r, inside, (ground (arith, is), (eq_iff _ _).0 at, done))

-- A blocking finding of the PR that is open at the current head.
abbrev pub IsOpenBlocking : ReadInput → FindingRow → Type 0
IsOpenBlocking i row =
    (is_number row.pr_number i.pr_number ≡ true)
    × (row.blocking ≡ true)
    × (is_open row.status ≡ true)
    × (row.head_sha ≡ i.head)

listed_sound :
    (i : ReadInput) (rows : Rows) (row : FindingRow)
    → In row (blocking_at_head i rows)
    → In row (Dict.values rows) × IsOpenBlocking i row
unfolding find_blocking_by_pr find_by_pr
listed_sound i rows row h =
    let (kept, at) = select_sound (λ b. str_eq b.head_sha i.head) _ row h in
    let (sorted, live) = select_sound (λ r. r.blocking && is_open r.status) _ row kept in
    let (inside, pr) =
      select_sound (λ r. is_number r.pr_number i.pr_number) _ row
        (Sort.sort-In not_later row _ sorted) in
    (inside, (pr, ground (arith, live), ground (arith, live), (eq_iff _ _).0 at))

listed_complete :
    (i : ReadInput) (rows : Rows) (row : FindingRow)
    → In row (Dict.values rows)
    → IsOpenBlocking i row
    → In row (blocking_at_head i rows)
unfolding find_blocking_by_pr find_by_pr
listed_complete i rows row h (pr, blocking, live, at) =
    select_complete (λ b. str_eq b.head_sha i.head) _ row
      (select_complete (λ r. r.blocking && is_open r.status) _ row
        (Sort.In-sort not_later row _
          (select_complete (λ r. is_number r.pr_number i.pr_number) _ row h pr))
        (rw (blocking, live)))
      ((eq_iff _ _).1 at)

empty-not_In {ℓ} : {A : Type ℓ} (a : A) (xs : List A) → is_empty xs ≡ true → In a xs → ⊥
empty-not_In a [] e i = elim i [ ]
empty-not_In a (x ∷ xs) e i = cc

not_In-empty {ℓ} : {A : Type ℓ} (xs : List A) → ((a : A) → In a xs → ⊥) → is_empty xs ≡ true
not_In-empty [] h = refl
not_In-empty (x ∷ xs) h = absurd (h x (here refl))

pub blocking_at_head-empty_iff :
    (i : ReadInput) (rows : Rows)
    → (is_empty (blocking_at_head i rows) ≡ true)
      ↔ ((row : FindingRow) → In row (Dict.values rows) → ¬ IsOpenBlocking i row)
blocking_at_head-empty_iff i rows = (
  λ e row h b. empty-not_In row _ e (listed_complete i rows row h b),
  λ none.
      not_In-empty _ (λ row h. let (inside, b) = listed_sound i rows row h in none row inside b),
)
