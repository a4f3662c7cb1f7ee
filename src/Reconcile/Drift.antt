-- ===== src/Reconcile/Drift.antt =====
-- reconcile/github-hydrator.ts and reconcile/drift-detector.ts: what GitHub shows of a run is
-- fetched and compared with the recorded state. The fetches of the trusted port are parameters, and
-- so is the time. The events published on the bus are returned in order.
pub mod SameTexts
pub mod Detection
use github_auto_dev.Base.{
  ℕ, ◌==◌, String, Option, none, some, Bool, true, false, not, ◌&&◌, ◌||◌, List, [], ◌∷◌, ◌++◌, map,
  or_else, if◌then◌else◌, str_eq, opt_eq, truthy?, length, is_empty, select,
}
use github_auto_dev.Base.Sets.{unique, minus}
use github_auto_dev.Base.Sort.{sort}
use github_auto_dev.Base.Text.{◌<>◌, text_lt}

pub data IssueState : Type 0 where
  open_issue closed_issue : IssueState

abbrev pub same_state : IssueState → IssueState → Bool
same_state open_issue open_issue = true
same_state open_issue closed_issue = false
same_state closed_issue open_issue = false
same_state closed_issue closed_issue = true

pub record LiveIssueSnapshot : Type 0 where
  pub repo : String
  pub issue_number : ℕ
  pub labels : List String
  pub has_status_comment : Bool
  pub state : IssueState

pub data PrState : Type 0 where
  open_pr closed_pr merged_pr : PrState

pub data CheckStatus : Type 0 where
  completed in_progress queued : CheckStatus

pub record LiveCheck : Type 0 where
  pub name : String
  pub status : CheckStatus
  pub conclusion : Option String

pub record Review : Type 0 where
  pub author : String
  pub state : String

pub record LivePrSnapshot : Type 0 where
  pub repo : String
  pub pr_number : ℕ
  pub head_sha : String
  pub base_sha : String
  pub state : PrState
  pub checks : List LiveCheck
  pub reviews : List Review

pub record LiveRunSnapshot : Type 0 where
  pub run_id : String
  pub repo : String
  pub issue_number : Option ℕ
  pub pr_number : Option ℕ
  pub issue : Option LiveIssueSnapshot
  pub pr : Option LivePrSnapshot

pub record DriftReport : Type 0 where
  pub run_id : String
  pub repo : String
  pub issue_number : Option ℕ
  pub pr_number : Option ℕ
  pub live : LiveRunSnapshot
  pub fetched_at : String

pub record HydrateRunInput : Type 0 where
  pub run_id : String
  pub repo : String
  pub issue_number : Option ℕ
  pub pr_number : Option ℕ

abbrev fetched {ℓ} : {A : Type ℓ} → (ℕ → Option A) → Option ℕ → Option A
fetched fetch none = none
fetched fetch (some n) = fetch n

-- `GitHubHydrator.hydrate`.
abbrev pub hydrate :
    (fetch_issue : String → ℕ → Option LiveIssueSnapshot)
    → (fetch_pr : String → ℕ → Option LivePrSnapshot) → (now : String) → HydrateRunInput
    → DriftReport
hydrate fetch_issue fetch_pr now i = record {
  run_id = i.run_id;
  repo = i.repo;
  issue_number = i.issue_number;
  pr_number = i.pr_number;
  live = record {
    run_id = i.run_id;
    repo = i.repo;
    issue_number = i.issue_number;
    pr_number = i.pr_number;
    issue = fetched (fetch_issue i.repo) i.issue_number;
    pr = fetched (fetch_pr i.repo) i.pr_number;
  };
  fetched_at = now;
}

pub record ExpectedCheck : Type 0 where
  pub name : String
  pub conclusion : Option String

pub record DbProjection : Type 0 where
  pub run_id : String
  pub repo : String
  pub issue_number : Option ℕ
  pub pr_number : Option ℕ
  pub expected_labels : List String
  pub expects_status_comment : Bool
  pub expected_issue_state : IssueState
  pub expected_head_sha : Option String
  pub expected_reviews : List Review
  pub expected_checks : List ExpectedCheck

-- The `kind` of an event and its `detail`.
pub data Detail : Type 0 where
  label_mismatch : (missing : List String) → (extra : List String) → (issue_number : ℕ) → Detail
  status_comment_missing : (issue_number : ℕ) → Detail
  state_divergence : (issue_number : ℕ) → (expected : IssueState) → (actual : IssueState) → Detail
  head_sha_divergence : (pr_number : ℕ) → (expected : String) → (actual : String) → Detail
  review_divergence : (pr_number : ℕ) → Detail
  check_divergence : (pr_number : ℕ) → Detail

pub record DriftEvent : Type 0 where
  pub run_id : String
  pub repo : String
  pub detail : Detail

abbrev event : DriftReport → Detail → DriftEvent
event r d = record { run_id = r.run_id; repo = r.repo; detail = d }

-- `out.push(...)` under a condition.
abbrev when : Bool → DriftReport → Detail → List DriftEvent
when b r d = if b then event r d ∷ [] else []

-- `sa.every((v, i) => v === sb[i])`, where a missing element is no text.
abbrev every_same : List String → List String → Bool
every_same [] ys = true
every_same (x ∷ xs) [] = false
every_same (x ∷ xs) (y ∷ ys) = str_eq x y && every_same xs ys

-- Both lists sorted, then compared place by place.
unfoldable pub same_sorted : List String → List String → Bool
unfolding sort text_lt
same_sorted xs ys = every_same (sort text_lt xs) (sort text_lt ys)

abbrev pub review_text : Review → String
review_text r = r.author <> ":" <> r.state

abbrev pub expected_text : ExpectedCheck → String
expected_text c = c.name <> ":" <> or_else c.conclusion ""

abbrev pub live_text : LiveCheck → String
live_text c = c.name <> ":" <> or_else c.conclusion ""

unfoldable pub same_reviews : List Review → List Review → Bool
unfolding same_sorted
same_reviews a b =
    if not (length a == length b)
    then false
    else same_sorted (map review_text a) (map review_text b)

unfoldable pub same_checks : List ExpectedCheck → List LiveCheck → Bool
unfolding same_sorted
same_checks a b =
    if not (length a == length b)
    then false
    else same_sorted (map expected_text a) (map live_text b)

unfoldable pub detect_issue_drifts :
    DriftReport → DbProjection → LiveIssueSnapshot → List DriftEvent
unfolding unique select
detect_issue_drifts report p issue =
    let expected = unique p.expected_labels in
    let actual = unique issue.labels in
    let missing = minus expected actual in
    let extra = minus actual expected in
    when (not (is_empty missing) || not (is_empty extra)) report
      (label_mismatch missing extra issue.issue_number)
    ++ when (p.expects_status_comment && not issue.has_status_comment) report
        (status_comment_missing issue.issue_number)
    ++ when (not (same_state p.expected_issue_state issue.state)) report
        (state_divergence issue.issue_number p.expected_issue_state issue.state)

abbrev pub wrong_head : Option String → String → Bool
wrong_head expected actual = truthy? expected && not (opt_eq expected (some actual))

unfoldable pub detect_pr_drifts : DriftReport → DbProjection → LivePrSnapshot → List DriftEvent
unfolding same_reviews same_checks opt_eq
detect_pr_drifts report p pr =
    when (wrong_head p.expected_head_sha pr.head_sha) report
      (head_sha_divergence pr.pr_number (or_else p.expected_head_sha "") pr.head_sha)
    ++ when (not (same_reviews p.expected_reviews pr.reviews)) report
        (review_divergence pr.pr_number)
    ++ when (not (same_checks p.expected_checks pr.checks)) report (check_divergence pr.pr_number)

abbrev on {ℓ} : {A : Type ℓ} → (A → List DriftEvent) → Option A → List DriftEvent
on f none = []
on f (some a) = f a

-- `DriftDetector.detect`: the drifts, each of which is published once.
unfoldable pub detect : DriftReport → DbProjection → List DriftEvent
unfolding detect_issue_drifts detect_pr_drifts
detect report p =
    on (detect_issue_drifts report p) report.live.issue
    ++ on (detect_pr_drifts report p) report.live.pr
