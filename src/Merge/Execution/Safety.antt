-- ===== src/Merge/Execution/Safety.antt =====
-- What the service has established whenever it asks GitHub to merge, and what it records.
use github_auto_dev.Base.{
  ℕ, ◌≤◌, String, ◌≡◌, refl, ◌≢◌, ◌↔◌, Option, none, some, List, [], ◌∷◌, Bool, true, false, not,
  arith, ap, In, here, there, Bool-cases, inl, inr, All, ◌&&◌, is_empty, is_empty-append,
}
use github_auto_dev.Merge.Gates.{Signals}
use github_auto_dev.Merge.Gates.Aggregation.{IsCleared}
use github_auto_dev.Artifacts.{Store}
use github_auto_dev.Merge.Evaluator.{
  BranchProtection, LivePr, opened, EvaluateInput, EvaluateResult, BaseAdvancedPolicy,
  MergeDecisionKind, merge, evaluate,
}
use github_auto_dev.Merge.Evaluator.Decision.{IsReady, tested_at, evaluate-merge_sound}
use github_auto_dev.Merge.Execution.{
  MergeTokenProfile, MergeInput, Effect, merge_call, MergeResult, merged, thrown, not_merged,
  is_merge, faults, call_merge, check_protection, merge_pr, validate_merge_token_profile,
  forbidden_scopes, only_if, manager_text, executed, refused, refused_no_human,
}
use github_auto_dev.Merge.Execution.Credential.{validate-is_merge_manager_iff}

-- The rule of the base branch is there and cannot be got round.
abbrev pub Enforces : Option BranchProtection → Type 0
Enforces none = ⊥
Enforces (some p) =
    (1 ≤ p.required_review_count)
    × (p.enforce_admins ≡ true)
    × (p.required_check_count ≢ 0)
    × (p.dismisses_stale_reviews ≡ true)

check_protection_iff :
    (o : Option BranchProtection) → ((check_protection 1 o).0 ≡ true) ↔ Enforces o
unfolding check_protection
check_protection_iff none = (λ h. cc, λ h. absurd h)
check_protection_iff (some p) = ground arith

check_protection-failed :
    (o : Option BranchProtection)
    → (check_protection 1 o).0 ≡ false
    → is_empty (check_protection 1 o).1 ≡ false
unfolding check_protection
check_protection-failed none h = refl
check_protection-failed (some p) h = h

faults-nil :
    (i : MergeInput) (token : MergeTokenProfile)
    → (is_empty (faults i token) ≡ true) ↔ (Enforces i.protection × (token.is_merge_manager ≡ true))
faults-nil i token =
    let e = check_protection_iff i.protection in
    elim (Bool-cases (check_protection 1 i.protection).0) [
      | inl good ↦ rw good (λ h. (e.0 good, ground arith), λ h. rw h.1)
      | inr bad ↦ (
        λ h. absurd (
            ground (
              arith,
              check_protection-failed i.protection bad,
              is_empty-append (check_protection 1 i.protection).1
                  (only_if (not token.is_merge_manager) (manager_text token)),
            )),
        λ h. cc (e.1 h.0),
      )
    ]

-- What must hold for a merge.
pub record MayMerge (i : MergeInput) (token : MergeTokenProfile) : Type 0 where
  pub decided : i.decision.decision ≡ merge
  pub reviewed : i.requires_human_review ≡ true → i.human_review_passed ≡ true
  pub enforced : Enforces i.protection
  pub credential : token.is_merge_manager ≡ true

-- Calls of GitHub among the effects.
abbrev pub merge_calls : List Effect → ℕ
merge_calls [] = 0
merge_calls (merge_call r p ∷ es) = ℕ.suc (merge_calls es)
merge_calls (_ ∷ es) = merge_calls es

-- The service asks GitHub to merge, and then once, exactly when the decision is to merge, a human
-- review that is required has passed, branch protection still holds, and the credential is good.
pub merge_pr-calls :
    (i : MergeInput) (token : MergeTokenProfile) (answer : Option String) (audit_id : String)
    → ((merge_calls (merge_pr i token answer audit_id).1 ≡ 1) ↔ MayMerge i token)
      × (merge_calls (merge_pr i token answer audit_id).1 ≤ 1)
unfolding merge_pr
merge_pr-calls i token answer audit_id = ground (arith, faults-nil i token)

-- What a run of the service may return, with the calls that it makes on the way, and when.
pub data Trace (i : MergeInput) (token : MergeTokenProfile) (answer : Option String)
    (audit_id : String) : MergeResult → List Effect → Type 0 where
  undecided :
      {rs : List String}
      → i.decision.decision ≢ merge
      → Trace i token answer audit_id (not_merged rs) []
  unreviewed :
      {rs : List String}
      → i.decision.decision ≡ merge
      → i.requires_human_review ≡ true
      → i.human_review_passed ≡ false
      → Trace i token answer audit_id
          (not_merged rs)
          (refused_no_human i.run_id i.repo i.pr_number i.decision.digest ∷ [])
  faulty :
      {rs : List String}
      → i.decision.decision ≡ merge
      → is_empty rs ≡ false
      → ¬ (Enforces i.protection × (token.is_merge_manager ≡ true))
      → Trace i token answer audit_id
          (not_merged rs)
          (refused i.run_id i.repo i.pr_number i.decision.digest rs ∷ [])
  crashed :
      MayMerge i token
      → answer ≡ none
      → Trace i token answer audit_id thrown (merge_call i.repo i.pr_number ∷ [])
  done :
      {commit : String}
      → MayMerge i token
      → answer ≡ some commit
      → Trace i token answer audit_id (merged commit audit_id) (
          merge_call i.repo i.pr_number
          ∷ executed i.run_id i.repo i.pr_number commit i.decision.digest i.decision.current_head
          ∷ [])

call_merge-Trace :
    (i : MergeInput) (token : MergeTokenProfile) (answer : Option String) (audit_id : String)
    → MayMerge i token
    → Trace i token answer audit_id
        (call_merge i answer audit_id).0
        (call_merge i answer audit_id).1
unfolding call_merge
call_merge-Trace i token none audit_id may = crashed may refl
call_merge-Trace i token (some commit) audit_id may = done may refl

is_merge_sound : (k : MergeDecisionKind) → is_merge k ≡ true → k ≡ merge
is_merge_sound k h = ground arith

-- Every outcome leaves its trace. When the decision is not to merge, nothing is recorded. When it is,
-- but a required human review has not passed, or branch protection does not hold or the credential
-- is not good, that is one audit record and no call of GitHub; the record of faults has the reasons
-- that are returned, of which there are some. When all of these are as they must be, GitHub is
-- called: with its answer the call is followed by the audit record of that commit, which is
-- returned, and its exception leaves its call alone.
pub merge_pr-Trace :
    (i : MergeInput) (token : MergeTokenProfile) (answer : Option String) (audit_id : String)
    → Trace i token answer audit_id
        (merge_pr i token answer audit_id).0
        (merge_pr i token answer audit_id).1
unfolding merge_pr
merge_pr-Trace i token answer audit_id = elim (Bool-cases (is_merge i.decision.decision)) [
  | inr other ↦ rw other (undecided (λ e. cc (other, ap is_merge e)))
  | inl same ↦
      let decided = is_merge_sound i.decision.decision same in
      rw same (elim (Bool-cases (i.requires_human_review && not i.human_review_passed)) [
        | inl unseen ↦ rw unseen (unreviewed decided (ground arith) (ground arith))
        | inr seen ↦ rw seen (elim (Bool-cases (is_empty (faults i token))) [
          | inl clear ↦
              let (enforced, good) = (faults-nil i token).0 clear in
              rw clear (
                call_merge-Trace i token answer audit_id (record {
                  decided = decided;
                  reviewed = λ needed. ground arith;
                  enforced = enforced;
                  credential = good;
                }))
          | inr faults_found ↦
              rw faults_found
                (faulty decided faults_found (λ h. cc (faults_found, (faults-nil i token).1 h)))
        ])
      ])
]

call_counted : (r : String) (n : ℕ) (es : List Effect) → In (merge_call r n) es → 1 ≤ merge_calls es
call_counted r n [] h = elim h [ ]
call_counted r n (merge_call r' n' ∷ es) h = omega arith
call_counted r n (refused_no_human a b c d ∷ es) (here e) = cc
call_counted r n (refused_no_human a b c d ∷ es) (there h) = call_counted r n es h
call_counted r n (refused a b c d rs ∷ es) (here e) = cc
call_counted r n (refused a b c d rs ∷ es) (there h) = call_counted r n es h
call_counted r n (executed a b c d f g ∷ es) (here e) = cc
call_counted r n (executed a b c d f g ∷ es) (there h) = call_counted r n es h

call_addressed :
    (i : MergeInput) (token : MergeTokenProfile) (answer : Option String) (audit_id : String)
    (o : MergeResult) (es : List Effect) (r : String) (n : ℕ)
    → Trace i token answer audit_id o es
    → In (merge_call r n) es
    → (r ≡ i.repo) × (n ≡ i.pr_number)
call_addressed i token answer audit_id o es r n (undecided d) h = elim h [ ]
call_addressed i token answer audit_id o es r n (unreviewed d q u) (here e) = cc
call_addressed i token answer audit_id o es r n (unreviewed d q u) (there h) = elim h [ ]
call_addressed i token answer audit_id o es r n (faulty d f g) (here e) = cc
call_addressed i token answer audit_id o es r n (faulty d f g) (there h) = elim h [ ]
call_addressed i token answer audit_id o es r n (crashed may a) (here e) = (cc, cc)
call_addressed i token answer audit_id o es r n (crashed may a) (there h) = elim h [ ]
call_addressed i token answer audit_id o es r n (done may a) (here e) = (cc, cc)
call_addressed i token answer audit_id o es r n (done may a) (there (here e)) = cc
call_addressed i token answer audit_id o es r n (done may a) (there (there h)) = elim h [ ]

-- From the signals to the merge. The evaluation reads its PR from GitHub, and the service, for the
-- same repository and number, is given its decision and a validated credential. Then, when the
-- service asks GitHub to merge, it asks for that PR; the PR as it was read was open, its head and
-- base were the tested ones and GitHub reported neither a block nor a conflict; the signals clear
-- that head and base; branch protection still holds; and the credential has none of the forbidden
-- scopes.
pub evaluate-merge_pr_safe :
    (sha256_hex : String → String) (policy : BaseAdvancedPolicy) (e : EvaluateInput)
    (read_pr : String → ℕ → Option LivePr) (rule : Option BranchProtection) (signals : Signals)
    (store : Store) (out : EvaluateResult × Store) (i : MergeInput) (secret : String)
    (scopes : List String) (is_trusted : Bool) (answer : Option String) (audit_id : String)
    (repo : String) (pr_number : ℕ)
    → evaluate sha256_hex policy e (read_pr e.repo e.pr_number) rule signals store ≡ some out
    → i.repo ≡ e.repo
    → i.pr_number ≡ e.pr_number
    → i.decision ≡ out.0.decision
    → In
        (merge_call repo pr_number)
        (merge_pr i (validate_merge_token_profile secret scopes is_trusted) answer audit_id).1
    → ((live : LivePr) × (read_pr repo pr_number ≡ some live)
        × (live.state ≡ opened)
        × IsReady e live)
      × IsCleared signals (tested_at e)
      × Enforces i.protection
      × All (λ s. ¬ In s scopes) forbidden_scopes
evaluate-merge_pr_safe sha256_hex policy e read_pr rule signals store out i secret scopes is_trusted
      answer audit_id repo pr_number h same_repo same_number d c =
    let token = validate_merge_token_profile secret scopes is_trusted in
    let (calls, once) = merge_pr-calls i token answer audit_id in
    let counted = call_counted repo pr_number (merge_pr i token answer audit_id).1 c in
    let may = calls.0 (omega (arith, once, counted)) in
    let (r, n) =
      call_addressed i token answer audit_id _ _ repo pr_number
        (merge_pr-Trace i token answer audit_id) c in
    let (live, found, is, ready, cleared) =
      evaluate-merge_sound sha256_hex policy e (read_pr e.repo e.pr_number) rule signals store out h
        (cc (d, may.decided)) in
    let (_, _, _, bare) =
      (validate-is_merge_manager_iff secret scopes is_trusted).0 may.credential in
    let found' : read_pr repo pr_number ≡ some live = cc (r, n, same_repo, same_number, found) in
    ((live, found', is, ready), cleared, may.enforced, bare)
