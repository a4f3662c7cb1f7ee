-- ===== src/Reconcile/Drift/Detection.antt =====
-- When drift is reported.
use github_auto_dev.Base.{
  String, ◌≡◌, refl, ◌↔◌, eq_iff, Bool, true, false, not, Option, none, some, map, arith, is_empty,
  is_empty-append, has, Bool-cases, inl, inr, opt_eq, ◌⊎◌, ap, str_eq,
}
use github_auto_dev.Base.Sets.{differences-are_empty}
use github_auto_dev.Reconcile.Drift.{
  IssueState, open_issue, closed_issue, same_state, LiveIssueSnapshot, LivePrSnapshot, DriftReport,
  DbProjection, Detail, when, review_text, expected_text, live_text, detect_issue_drifts,
  wrong_head, detect_pr_drifts, on, detect,
}
use github_auto_dev.Reconcile.Drift.SameTexts.{SameCounts, same_reviews_iff, same_checks_iff}

-- The issue has the recorded labels, comment and state.
abbrev pub IssueInStep : DbProjection → Option LiveIssueSnapshot → Type 0
IssueInStep p none = Unit
IssueInStep p (some i) =
    ((l : String) → has p.expected_labels l ≡ has i.labels l)
    × (((p.expects_status_comment ≡ false) ⊎ (i.has_status_comment ≡ true))
        × (p.expected_issue_state ≡ i.state))

-- The head is the recorded one, where one is recorded.
abbrev HeadInStep : Option String → String → Type 0
HeadInStep expected actual = (expected ≡ none) ⊎ ((expected ≡ some "") ⊎ (expected ≡ some actual))

-- The pull request has the recorded head, and the recorded reviews and checks in any order.
abbrev pub PrInStep : DbProjection → Option LivePrSnapshot → Type 0
PrInStep p none = Unit
PrInStep p (some pr) =
    HeadInStep p.expected_head_sha pr.head_sha
    × (SameCounts (map review_text p.expected_reviews) (map review_text pr.reviews)
        × SameCounts (map expected_text p.expected_checks) (map live_text pr.checks))

is_empty-when : (b : Bool) (r : DriftReport) (d : Detail) → is_empty (when b r d) ≡ not b
is_empty-when b r d = ground arith

same_state_iff : (a b : IssueState) → (same_state a b ≡ true) ↔ (a ≡ b)
same_state_iff open_issue open_issue = (λ _. refl, λ _. refl)
same_state_iff open_issue closed_issue = (λ h. cc, λ h. cc)
same_state_iff closed_issue open_issue = (λ h. cc, λ h. cc)
same_state_iff closed_issue closed_issue = (λ _. refl, λ _. refl)

issue_quiet :
    (r : DriftReport) (p : DbProjection) (i : LiveIssueSnapshot)
    → (is_empty (detect_issue_drifts r p i) ≡ true) ↔ IssueInStep p (some i)
unfolding detect_issue_drifts
issue_quiet r p i =
    let labels = differences-are_empty p.expected_labels i.labels in
    let state = same_state_iff p.expected_issue_state i.state in
    simp (is_empty-append, is_empty-when)
      (
        λ h. (labels.0 (ground arith, ground arith), (ground arith, state.0 (ground arith))),
        λ h.
            let l = labels.1 h.0 in let same = state.1 h.1.1 in let comment = h.1.0 in ground arith,
      )

head_quiet : (e : Option String) (a : String) → (wrong_head e a ≡ false) ↔ HeadInStep e a
unfolding opt_eq
head_quiet none a = (λ _. inl refl, λ _. refl)
head_quiet (some s) a = (
  λ h. elim (Bool-cases (str_eq s "")) [
    | inl t ↦ inr (inl (ap some ((eq_iff s "").0 t)))
    | inr n ↦ inr (inr (ap some ((eq_iff s a).0 (ground arith))))
  ],
  λ h. elim h [
    | inl e ↦ cc
    | inr (inl e) ↦ cc
    | inr (inr e) ↦ let e' : s ≡ a = cc in ground (arith, eq_iff s a)
  ],
)

pr_quiet :
    (r : DriftReport) (p : DbProjection) (pr : LivePrSnapshot)
    → (is_empty (detect_pr_drifts r p pr) ≡ true) ↔ PrInStep p (some pr)
unfolding detect_pr_drifts
pr_quiet r p pr =
    let head = head_quiet p.expected_head_sha pr.head_sha in
    let reviews = same_reviews_iff p.expected_reviews pr.reviews in
    let checks = same_checks_iff p.expected_checks pr.checks in
    simp (is_empty-append, is_empty-when)
      (
        λ h. (head.0 (ground arith), (reviews.0 (ground arith), checks.0 (ground arith))),
        λ h.
            let a = head.1 h.0 in let b = reviews.1 h.1.0 in let c = checks.1 h.1.1 in ground arith,
      )

issues_quiet :
    (r : DriftReport) (p : DbProjection) (o : Option LiveIssueSnapshot)
    → (is_empty (on (detect_issue_drifts r p) o) ≡ true) ↔ IssueInStep p o
issues_quiet r p none = (λ _. tt, λ _. refl)
issues_quiet r p (some i) = issue_quiet r p i

prs_quiet :
    (r : DriftReport) (p : DbProjection) (o : Option LivePrSnapshot)
    → (is_empty (on (detect_pr_drifts r p) o) ≡ true) ↔ PrInStep p o
prs_quiet r p none = (λ _. tt, λ _. refl)
prs_quiet r p (some pr) = pr_quiet r p pr

-- No drift is reported exactly when what was fetched agrees with the recorded state: the issue's
-- labels as a set, its comment where one is expected and its state; and the pull request's head
-- where one is recorded, and its reviews and checks as multisets.
pub detect_iff :
    (r : DriftReport) (p : DbProjection)
    → (is_empty (detect r p) ≡ true) ↔ (IssueInStep p r.live.issue × PrInStep p r.live.pr)
unfolding detect
detect_iff r p =
    let issue = issues_quiet r p r.live.issue in
    let pr = prs_quiet r p r.live.pr in
    let split =
      is_empty-append (on (detect_issue_drifts r p) r.live.issue)
        (on (detect_pr_drifts r p) r.live.pr) in
    (
      λ h. (issue.0 (ground arith), pr.0 (ground arith)),
      λ h. let a = issue.1 h.0 in let b = pr.1 h.1 in ground arith,
    )
