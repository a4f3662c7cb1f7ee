-- ===== src/Merge/Gates/Types.antt =====
-- merge/types.ts and the records of merge/gate-results-reader.ts: gates, signals and evaluations.
use github_auto_dev.Base.{ℕ, String, Option, List, Bool, true, false}
use github_auto_dev.Db.Findings.{Rows}

pub data GateKind : Type 0 where
  test ai_review human_review risk_policy security_findings : GateKind

pub data Reviewer : Type 0 where
  code security : Reviewer

abbrev pub is_code : Reviewer → Bool
is_code code = true
is_code security = false

pub data Severity : Type 0 where
  low medium high critical : Severity

pub data GateReason : Type 0 where
  no_test test_stale test_passed test_failed : GateReason
  reviews_passed : GateReason
  reviews_incomplete : (code security : Bool) → GateReason
  no_approval approval_stale : GateReason
  approved_by : (actor : String) → GateReason
  no_risk risk_stale : GateReason
  risk_satisfied risk_needs_human : Severity → GateReason
  no_findings : GateReason
  open_findings : (count : ℕ) → GateReason

pub record GateEvaluation : Type 0 where
  pub kind : GateKind
  pub passed : Bool
  pub reason : GateReason
  pub evidence : List String
  pub head : String
  pub base : Option String

pub data StaleSignal : Type 0 where
  stale_test : (head base current_head current_base : String) → StaleSignal
  stale_review : Reviewer → (head : String) → StaleSignal
  stale_approval stale_risk : (head : String) → StaleSignal
  stale_finding : (id head : String) → StaleSignal

pub record HumanApproval : Type 0 where
  pub actor : String
  pub head : String
  pub approved_at : String
  pub source_ref : Option String

pub record RiskClassification : Type 0 where
  pub run_id : String
  pub head : String
  pub severity : Severity
  pub requires_human_review : Bool

pub record TestGate : Type 0 where
  pub run_id : String
  pub head : String
  pub base : String
  pub passed : Bool
  pub log_ref : String

pub record AiReview : Type 0 where
  pub run_id : String
  pub head : String
  pub reviewer : Reviewer
  pub completed : Bool
  pub review_ref : String

-- What the lookups return for the run and the PR; the findings come from their repository.
pub record Signals : Type 0 where
  pub test : Option TestGate
  pub reviews : List AiReview
  pub approval : Option HumanApproval
  pub risk : Option RiskClassification
  pub findings : Rows

pub record ReadInput : Type 0 where
  pub run_id : String
  pub pr_number : ℕ
  pub head : String
  pub base : String

pub record Evaluations : Type 0 where
  pub test : Option GateEvaluation
  pub ai_review : Option GateEvaluation
  pub human_review : Option GateEvaluation
  pub risk_policy : Option GateEvaluation
  pub security_findings : Option GateEvaluation

pub record ReadOutput : Type 0 where
  pub evaluations : Evaluations
  pub excluded_stale : List StaleSignal
