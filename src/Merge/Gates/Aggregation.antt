-- ===== src/Merge/Gates/Aggregation.antt =====
-- When the aggregate is mergeable, and what it reports as stale.
use github_auto_dev.Base.{
  ◌≡◌, inl, inr, List, Bool, true, false, not, ◌&&◌, arith, eq_iff, str_eq, In, find, select,
  find_sound, select_sound, select_complete, find-none, All-In, Option-cases,
}
use github_auto_dev.Base.Dict
use github_auto_dev.Db.Findings.{FindingRow}
use github_auto_dev.Merge.Gates.{
  Evaluations, Signals, AiReview, is_code, ReadInput, read_test, read_reviews, read_approval,
  read_risk, read_findings, completed?, passed?, all_pass, required_kinds, aggregate,
}
use github_auto_dev.Merge.Gates.Reading.{
  TestGreen, Approved, Classified, IsReview, IsOpenBlocking, read_test-passed_iff,
  read_approval-passed_iff, read_risk-passed_iff, code_review_sound, security_review_sound,
  blocking_at_head-empty_iff,
}

-- What has to hold of the signals, for the head and the base in question.
pub record IsCleared (s : Signals) (i : ReadInput) : Type 0 where
  pub tested : TestGreen i s.test
  pub approved : Approved i s.approval
  pub classified : Classified i s.risk
  pub code_reviewed : (r : AiReview) × In r s.reviews × IsReview i true r
  pub security_reviewed : (r : AiReview) × In r s.reviews × IsReview i false r
  pub unblocked : (row : FindingRow) → In row (Dict.values s.findings) → ¬ IsOpenBlocking i row

-- The loop over the kinds is the conjunction of the five, whatever the run's risk.
all_pass_lem :
    (e : Evaluations) (b : Bool)
    → (all_pass e b required_kinds true) ≡ (
        passed? e.test
        && (passed? e.ai_review
            && (passed? e.human_review && (passed? e.risk_policy && passed? e.security_findings))))
unfolding all_pass
all_pass_lem e b = ground arith

five_true :
    (a b c d e : Bool)
    → (a && (b && (c && (d && e)))) ≡ true
    → (a ≡ true) × (b ≡ true) × (c ≡ true) × (d ≡ true) × (e ≡ true)
five_true a b c d e h = ground arith

gates_green :
    (s : Signals) (i : ReadInput) (b : Bool)
    → (aggregate s i b).mergeable ≡ true
    → ((read_test i s.test).0.passed ≡ true)
      × ((read_reviews i s.reviews).0.passed ≡ true)
      × ((read_approval i s.approval).0.passed ≡ true)
      × ((read_risk i s.risk (read_approval i s.approval).0.passed).0.passed ≡ true)
      × ((read_findings i s.findings).0.passed ≡ true)
unfolding aggregate
gates_green s i b h = five_true _ _ _ _ _ (rw all_pass_lem at h)

green_gates :
    (s : Signals) (i : ReadInput) (b : Bool)
    → (read_test i s.test).0.passed ≡ true
    → (read_reviews i s.reviews).0.passed ≡ true
    → (read_approval i s.approval).0.passed ≡ true
    → (read_risk i s.risk (read_approval i s.approval).0.passed).0.passed ≡ true
    → (read_findings i s.findings).0.passed ≡ true
    → (aggregate s i b).mergeable ≡ true
unfolding aggregate
green_gates s i b t a h r f = rw all_pass_lem (rw (t, a, r, h, f))

-- A mergeable aggregate is backed by signals for this very head and base: a passed test run at
-- both, a completed code review and a completed security review at the head, a human approval and
-- a risk classification at the head, and no finding of the PR that blocks and is open at the head.
pub aggregate-mergeable_sound :
    (s : Signals) (i : ReadInput) (b : Bool) → (aggregate s i b).mergeable ≡ true → IsCleared s i
aggregate-mergeable_sound s i b h =
    let (t, a, p, r, f) = gates_green s i b h in
    record {
      tested = (read_test-passed_iff i s.test).0 t;
      approved = (read_approval-passed_iff i s.approval).0 p;
      classified = (read_risk-passed_iff i s.risk).0 (rw p at r);
      code_reviewed = code_review_sound i s.reviews (ground arith);
      security_reviewed = security_review_sound i s.reviews (ground arith);
      unblocked = (blocking_at_head-empty_iff i s.findings).0 f;
    }

-- No review of the head is still incomplete.
abbrev pub AllCompleted : ReadInput → List AiReview → Type 0
AllCompleted i reviews = (r : AiReview) → In r reviews → r.head ≡ i.head → r.completed ≡ true

found_completed :
    (i : ReadInput) (reviews : List AiReview) (p : AiReview → Bool) (r : AiReview)
    → AllCompleted i reviews
    → In r reviews
    → r.head ≡ i.head
    → p r ≡ true
    → completed? (find p (select (λ r. str_eq r.head i.head) reviews)) ≡ true
found_completed i reviews p r done listed at is =
    let kept = select_complete (λ r. str_eq r.head i.head) reviews r listed ((eq_iff _ _).1 at) in
    elim (Option-cases (find p (select (λ r. str_eq r.head i.head) reviews))) [
      | inl missed ↦ absurd (ground (arith, All-In _ r _ (find-none p _ missed) kept))
      | inr (q, found) ↦
          let (q_kept, q_is) = find_sound p _ q found in
          let (q_listed, q_at) = select_sound (λ r. str_eq r.head i.head) reviews q q_kept in
          rw found (done q q_listed ((eq_iff _ _).0 q_at))
    ]

-- Such signals make the aggregate mergeable, if no review of the head is incomplete. Whether the
-- run's risk asks for a human review makes no difference.
pub aggregate-mergeable_complete :
    (s : Signals) (i : ReadInput) (b : Bool)
    → IsCleared s i
    → AllCompleted i s.reviews
    → (aggregate s i b).mergeable ≡ true
aggregate-mergeable_complete s i b c done =
    let (cr, c_listed, c_is) = c.code_reviewed in
    let (sr, s_listed, s_is) = c.security_reviewed in
    let p = (read_approval-passed_iff i s.approval).1 c.approved in
    green_gates s i b ((read_test-passed_iff i s.test).1 c.tested)
      (rw (
        found_completed i s.reviews (λ r. is_code r.reviewer) cr done c_listed c_is.1 c_is.0,
        found_completed i s.reviews (λ r. not (is_code r.reviewer)) sr done s_listed s_is.1
            (rw s_is.0),
      ))
      p (rw p ((read_risk-passed_iff i s.risk).1 c.classified))
      ((blocking_at_head-empty_iff i s.findings).1 c.unblocked)
