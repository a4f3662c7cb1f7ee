-- ===== src/Merge/Execution.antt =====
-- merge/merge-credential-profile.ts, merge/branch-protection-checker.ts and merge/merge-service.ts:
-- the merge itself. Its calls of GitHub and of the audit chain are a list, in their order. GitHub's
-- answer, the resolved credential and the id of the audit record are arguments.
pub mod Credential
pub mod Safety
use github_auto_dev.Base.{
  ℕ, ltb, ◌==◌, String, str_eq, truthy, Option, none, some, List, [], ◌∷◌, ◌++◌, Bool, true, false,
  not, ◌&&◌, is_empty, any, select, if◌then◌else◌,
}
use github_auto_dev.Base.Text.{◌<>◌, show, join}
use github_auto_dev.Merge.Evaluator.{
  BranchProtection, MergeDecision, MergeDecisionKind, merge, refuse, queue, kind_text,
}

-- `MERGE_TOKEN_REQUIRED_SCOPES`.
abbrev pub required_scopes : List String
required_scopes = "repo:pull_requests:write" ∷ "repo:contents:write" ∷ "repo:status:write" ∷ []

-- `MERGE_TOKEN_FORBIDDEN_SCOPES`.
abbrev pub forbidden_scopes : List String
forbidden_scopes =
    "repo:administration:write" ∷ "admin:org" ∷ "admin:org_all" ∷ "admin:repo_hook" ∷ []

pub record MergeTokenProfile : Type 0 where
  pub token : String
  pub scopes : List String
  pub is_merge_manager : Bool
  pub validation_errors : List String

-- `scopes.includes(s)`.
abbrev pub includes : List String → String → Bool
includes scopes s = any (λ x. str_eq x s) scopes

abbrev pub only_if : Bool → String → List String
only_if true s = s ∷ []
only_if false s = []

unfoldable pub validate_merge_token_profile : String → List String → Bool → MergeTokenProfile
validate_merge_token_profile token scopes is_trusted =
    let forbidden = select (λ s. includes scopes s) forbidden_scopes in
    let absent = select (λ s. not (includes scopes s)) required_scopes in
    let errors =
      only_if (not is_trusted) "merge token must come from a trusted credential profile"
      ++ (only_if (not (truthy token)) "merge token must be present"
          ++ (only_if (not (is_empty forbidden)) (
                "merge token carries forbidden scopes: "
                <> join ", " forbidden
                <> " (would allow branch-protection bypass)")
              ++ only_if (not (is_empty absent))
                  ("merge token missing required scopes: " <> join ", " absent))) in
    record {
      token = token;
      scopes = scopes;
      is_merge_manager = is_empty errors;
      validation_errors = errors;
    }

-- `BranchProtectionChecker.check`, with its floor.
abbrev pub protection_faults : ℕ → BranchProtection → List String
protection_faults floor p =
    only_if (ltb p.required_review_count floor)
      ("required reviews " <> show p.required_review_count <> " < floor " <> show floor)
    ++ (only_if (not p.enforce_admins)
          "branch protection does not enforce admins (admin override would be required)"
        ++ (only_if (p.required_check_count == 0)
              "branch protection has zero required status checks"
            ++ only_if (not p.dismisses_stale_reviews)
                "branch protection does not dismiss stale reviews on push"))

unfoldable pub check_protection : ℕ → Option BranchProtection → Bool × List String
check_protection floor none = (false, "branch protection rule is missing on the base branch" ∷ [])
check_protection floor (some p) = (is_empty (protection_faults floor p), protection_faults floor p)

pub record MergeInput : Type 0 where
  pub run_id : String
  pub repo : String
  pub pr_number : ℕ
  pub decision : MergeDecision
  pub protection : Option BranchProtection
  pub requires_human_review : Bool
  pub human_review_passed : Bool

-- A call that changes something outside: an audit record, or the merge on GitHub.
pub data Effect : Type 0 where
  refused_no_human : (run repo : String) (pr : ℕ) (digest : String) → Effect
  refused : (run repo : String) (pr : ℕ) (digest : String) (reasons : List String) → Effect
  merge_call : (repo : String) (pr : ℕ) → Effect
  executed : (run repo : String) (pr : ℕ) (commit digest head : String) → Effect

-- `thrown` stands for the exception of GitHub's merge call, which nothing catches.
pub data MergeResult : Type 0 where
  merged : (commit audit_id : String) → MergeResult
  not_merged : (reasons : List String) → MergeResult
  thrown : MergeResult

abbrev pub is_merge : MergeDecisionKind → Bool
is_merge merge = true
is_merge _ = false

-- The merge on GitHub, and its audit record if it succeeds.
unfoldable pub call_merge : MergeInput → Option String → String → MergeResult × List Effect
call_merge i none audit_id = (thrown, merge_call i.repo i.pr_number ∷ [])
call_merge i (some commit) audit_id = (
  merged commit audit_id,
  merge_call i.repo i.pr_number
      ∷ executed i.run_id i.repo i.pr_number commit i.decision.digest i.decision.current_head
      ∷ [],
)

abbrev pub manager_text : MergeTokenProfile → String
manager_text token = "merge-manager credential invalid: " <> join "; " token.validation_errors

abbrev pub faults : MergeInput → MergeTokenProfile → List String
faults i token =
    let check = check_protection 1 i.protection in
    (if check.0 then [] else check.1) ++ only_if (not token.is_merge_manager) (manager_text token)

-- `MergeService.merge`.
unfoldable pub merge_pr :
    MergeInput → MergeTokenProfile → Option String → String → MergeResult × List Effect
unfolding call_merge check_protection
merge_pr i token answer audit_id =
    if not (is_merge i.decision.decision)
    then (
      not_merged (
          ("final evaluator decision=" <> kind_text i.decision.decision <> "; refusing to merge")
          ∷ []),
      [],
    )
    else if i.requires_human_review && not i.human_review_passed
    then (
      not_merged ("high-risk PR missing human review; merge refused" ∷ []),
      refused_no_human i.run_id i.repo i.pr_number i.decision.digest ∷ [],
    )
    else if not (is_empty (faults i token))
    then (
      not_merged (faults i token),
      refused i.run_id i.repo i.pr_number i.decision.digest (faults i token) ∷ [],
    )
    else call_merge i answer audit_id
