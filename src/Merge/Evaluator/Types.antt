-- ===== src/Merge/Evaluator/Types.antt =====
-- merge/github-state-hydrator.ts, and the inputs and results of merge/merge-final-evaluator.ts.
use github_auto_dev.Base.{ℕ, String, Option, none, some, List, Bool, if◌then◌else◌}
use github_auto_dev.Schemas.StableJson.{}
use github_auto_dev.Merge.Gates.{AggregatedGates}

pub data MergeableState : Type 0 where
  clean blocked behind dirty unknown unstable : MergeableState

pub data PrState : Type 0 where
  opened closed merged : PrState

pub record LivePr : Type 0 where
  pub pr_number : ℕ
  pub head : String
  pub base : String
  pub base_branch : String
  pub mergeable_state : MergeableState
  pub state : PrState
  pub is_protected : Bool

pub record BranchProtection : Type 0 where
  pub required_check_count : ℕ
  pub required_review_count : ℕ
  pub strict_checks : Bool
  pub enforce_admins : Bool
  pub dismisses_stale_reviews : Bool

pub data HydrateResult : Type 0 where
  hydrated : LivePr → Option BranchProtection → HydrateResult
  not_found : HydrateResult
  not_open : PrState → HydrateResult

-- The second argument is what GitHub answers when it is asked for the rule of the base branch.
unfoldable pub hydrate : Option LivePr → Option BranchProtection → HydrateResult
hydrate none rule = not_found
hydrate (some pr) rule = elim pr.state [
  | opened ↦ hydrated pr (if pr.is_protected then rule else none)
  | closed ↦ not_open closed
  | merged ↦ not_open merged
]

pub data MergeDecisionKind : Type 0 where
  merge refuse queue : MergeDecisionKind

pub data BaseAdvancedPolicy : Type 0 where
  queue_it refuse_it : BaseAdvancedPolicy

pub record EvaluateInput : Type 0 where
  pub run_id : String
  pub repo : String
  pub pr_number : ℕ
  pub tested_head : String
  pub tested_base : String
  pub requires_human_review : Bool
  pub now : String

pub record MergeDecision : Type 0 where
  pub run_id : String
  pub pr_number : ℕ
  pub decision : MergeDecisionKind
  pub current_head : String
  pub tested_head : String
  pub tested_base : String
  pub current_base : String
  pub digest : String
  pub reasons : List String
  pub created_at : String

pub record EvaluateResult : Type 0 where
  pub decision : MergeDecision
  pub aggregated : AggregatedGates
  pub live : LivePr
  pub artifact_ref : String
