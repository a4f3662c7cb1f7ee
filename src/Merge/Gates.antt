-- ===== src/Merge/Gates.antt =====
-- merge/types.ts, merge/gate-results-reader.ts and merge/gate-aggregator.ts: the five gates, bound
-- to the current head and base. A reason text is a constructor that holds what it interpolates;
-- what the lookups of the reader return is an argument.
mod Types
pub mod Reading
pub mod Aggregation
use github_auto_dev.Base.{
  ℕ, String, str_eq, truthy, Option, none, some, List, [], ◌∷◌, ◌++◌, map, Bool, true, false, not,
  ◌&&◌, ◌||◌, select, find, is_empty, length, if◌then◌else◌,
}
use github_auto_dev.Db.Findings.{FindingRow, Rows, find_blocking_by_pr}
unfoldable pub use Types.*

-- A gate that is red for want of a fresh signal.
abbrev red : GateKind → GateReason → String → GateEvaluation
red kind reason head = record {
  kind = kind;
  passed = false;
  reason = reason;
  evidence = [];
  head = head;
  base = none;
}

abbrev pub read_test : ReadInput → Option TestGate → GateEvaluation × List StaleSignal
read_test i none = (red test no_test i.head, [])
read_test i (some t) =
    if not (str_eq t.head i.head) || not (str_eq t.base i.base)
    then (red test test_stale i.head, stale_test t.head t.base i.head i.base ∷ [])
    else (
      record {
        kind = test;
        passed = t.passed;
        reason = if t.passed then test_passed else test_failed;
        evidence = t.log_ref ∷ [];
        head = t.head;
        base = some t.base;
      },
      [],
    )

-- `review?.completed ?? false`.
abbrev pub completed? : Option AiReview → Bool
completed? none = false
completed? (some r) = r.completed

abbrev review_ref? : Option AiReview → List String
review_ref? none = []
review_ref? (some r) = r.review_ref ∷ []

abbrev pub code_review : ReadInput → List AiReview → Option AiReview
code_review i reviews = find (λ r. is_code r.reviewer) (select (λ r. str_eq r.head i.head) reviews)

abbrev pub security_review : ReadInput → List AiReview → Option AiReview
security_review i reviews =
    find (λ r. not (is_code r.reviewer)) (select (λ r. str_eq r.head i.head) reviews)

abbrev pub read_reviews : ReadInput → List AiReview → GateEvaluation × List StaleSignal
read_reviews i reviews =
    let c = code_review i reviews in
    let s = security_review i reviews in
    (
      record {
        kind = ai_review;
        passed = completed? c && completed? s;
        reason =
            if completed? c && completed? s
            then reviews_passed
            else reviews_incomplete (completed? c) (completed? s);
        evidence = review_ref? c ++ review_ref? s;
        head = i.head;
        base = some i.base;
      },
      map (λ r. stale_review r.reviewer r.head) (select (λ r. not (str_eq r.head i.head)) reviews),
    )

-- `approval.sourceRef ? [approval.sourceRef] : []`.
abbrev source_refs : Option String → List String
source_refs none = []
source_refs (some r) = if truthy r then r ∷ [] else []

abbrev pub read_approval : ReadInput → Option HumanApproval → GateEvaluation × List StaleSignal
read_approval i none = (red human_review no_approval i.head, [])
read_approval i (some a) =
    if not (str_eq a.head i.head)
    then (red human_review approval_stale i.head, stale_approval a.head ∷ [])
    else (
      record {
        kind = human_review;
        passed = true;
        reason = approved_by a.actor;
        evidence = source_refs a.source_ref;
        head = a.head;
        base = none;
      },
      [],
    )

-- The third argument says whether the human gate read just before has passed.
abbrev pub read_risk :
    ReadInput → Option RiskClassification → Bool → GateEvaluation × List StaleSignal
read_risk i none human = (red risk_policy no_risk i.head, [])
read_risk i (some r) human =
    if not (str_eq r.head i.head)
    then (red risk_policy risk_stale i.head, stale_risk r.head ∷ [])
    else (
      record {
        kind = risk_policy;
        passed = not r.requires_human_review || human;
        reason =
            if not r.requires_human_review || human
            then risk_satisfied r.severity
            else risk_needs_human r.severity;
        evidence = [];
        head = r.head;
        base = none;
      },
      [],
    )

abbrev pub blocking_at_head : ReadInput → Rows → List FindingRow
blocking_at_head i rows =
    select (λ b. str_eq b.head_sha i.head) (find_blocking_by_pr i.pr_number rows)

abbrev pub read_findings : ReadInput → Rows → GateEvaluation × List StaleSignal
read_findings i rows =
    let at_head = blocking_at_head i rows in
    (
      record {
        kind = security_findings;
        passed = is_empty at_head;
        reason = if is_empty at_head then no_findings else open_findings (length at_head);
        evidence = map (λ b. b.id) at_head;
        head = i.head;
        base = none;
      },
      map (λ b. stale_finding b.id b.head_sha)
          (select (λ b. not (str_eq b.head_sha i.head)) (find_blocking_by_pr i.pr_number rows)),
    )

-- `GateResultsReader.read`.
unfoldable pub read : Signals → ReadInput → ReadOutput
read s i =
    let (t, t_stale) = read_test i s.test in
    let (a, a_stale) = read_reviews i s.reviews in
    let (h, h_stale) = read_approval i s.approval in
    let (r, r_stale) = read_risk i s.risk h.passed in
    let (f, f_stale) = read_findings i s.findings in
    record {
      evaluations = record {
        test = some t;
        ai_review = some a;
        human_review = some h;
        risk_policy = some r;
        security_findings = some f;
      };
      excluded_stale = t_stale ++ (a_stale ++ (h_stale ++ (r_stale ++ f_stale)));
    }

pub record AggregatedGates : Type 0 where
  pub run_id : String
  pub head : String
  pub base : String
  pub mergeable : Bool
  pub gates : Evaluations
  pub excluded_stale : List StaleSignal

-- `gates[kind]`.
abbrev pub gate_of : Evaluations → GateKind → Option GateEvaluation
gate_of e test = e.test
gate_of e ai_review = e.ai_review
gate_of e human_review = e.human_review
gate_of e risk_policy = e.risk_policy
gate_of e security_findings = e.security_findings

-- `gate?.passed === true`.
abbrev pub passed? : Option GateEvaluation → Bool
passed? none = false
passed? (some g) = g.passed

abbrev pub required_kinds : List GateKind
required_kinds = test ∷ ai_review ∷ human_review ∷ risk_policy ∷ security_findings ∷ []

abbrev is_human : GateKind → Bool
is_human human_review = true
is_human _ = false

-- The loop of `aggregate`, with `mergeable` as it stands before the round.
unfoldable pub all_pass : Evaluations → Bool → List GateKind → Bool → Bool
all_pass gates require_human [] mergeable = mergeable
all_pass gates require_human (kind ∷ kinds) mergeable =
    let passed = passed? (gate_of gates kind) in
    let first = if not passed then false else mergeable in
    all_pass gates require_human kinds
      (if is_human kind && (require_human && not passed) then false else first)

-- `GateAggregator.aggregate`.
unfoldable pub aggregate : Signals → ReadInput → Bool → AggregatedGates
unfolding all_pass read
aggregate s i requires_human_review =
    let r = read s i in
    record {
      run_id = i.run_id;
      head = i.head;
      base = i.base;
      mergeable = all_pass r.evaluations requires_human_review required_kinds true;
      gates = r.evaluations;
      excluded_stale = r.excluded_stale;
    }
