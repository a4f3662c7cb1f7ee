-- ===== src/Examples/Commands.antt =====
-- Authorizations and approvals on concrete commands.
use github_auto_dev.Base.{
  String, str_eq, if◌then◌else◌, ◌≤◌, ◌≡◌, refl, none, [], ◌∷◌, In, find, select, true,
}
use github_auto_dev.Commands.Authorization.{
  GitHubPermission, no_permission, maintain, approve_plan, Records, AuthorizeInput, permission_rank,
  authorize,
}
use github_auto_dev.Commands.PlanApproval.{
  PlanRef, PlanApprovalInput, approved, match_plan, conclude, decide_plan,
}
use github_auto_dev.Commands.Matching.{IsSubmitted}
use github_auto_dev.Commands.Approval.{Verdict, decide_plan-Verdict, authorize-decide_plan_safe}

abbrev request : AuthorizeInput
request = record {
  repo = "r";
  issue_number = 1;
  command = approve_plan;
  actor = "a";
  source_comment_id = 9;
  required_permission_override = none;
}

abbrev no_records : Records
no_records = record { authorizations = []; audit = [] }

abbrev current : PlanRef
current = record { plan_id = "p"; plan_sha = "s"; generation = 2 }

abbrev input : PlanApprovalInput
input = record {
  submitted = record { plan_id = "p"; plan_sha = "s" };
  actor = "a";
  source_comment_id = 9;
  candidates = current ∷ [];
  current_generation = 2;
  authorization = (authorize request maintain "id" "t" no_records).0;
}

decide_plan-Verdict_example :
    Verdict input (decide_plan input true "id2" "t").0 (decide_plan input true "id2" "t").1
decide_plan-Verdict_example = decide_plan-Verdict input true "id2" "t"

input_approved : (decide_plan input true "id2" "t").0 ≡ approved current "a" 9
unfolding decide_plan authorize match_plan conclude find select
input_approved = refl

abbrev permission_of : String → GitHubPermission
permission_of actor = if str_eq actor "a" then maintain else no_permission

authorize-decide_plan_safe_example :
    (◌≡◌ {A = String} "a" "a")
    × (permission_rank maintain ≤ permission_rank (permission_of "a"))
    × In current (current ∷ [])
    × IsSubmitted (record { plan_id = "p"; plan_sha = "s" }) current
    × (2 ≤ 2)
authorize-decide_plan_safe_example =
    authorize-decide_plan_safe request permission_of "id" "t" no_records input true "id2" "t"
      current "a" 9 refl refl refl refl input_approved
