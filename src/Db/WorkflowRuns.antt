-- ===== src/Db/WorkflowRuns.antt =====
-- packages/db/src/repos/workflow-run-repo.ts: the rows of workflow runs. The clock is an argument.
pub mod Versions
use github_auto_dev.Base.{
  ℕ, ◌+◌, ◌==◌, String, str_eq, Option, none, some, List, [], ◌∷◌, Bool, true, false, ◌&&◌, or_else,
  select, if◌then◌else◌,
}
use github_auto_dev.Base.Dict

pub record WorkflowRun : Type 0 where
  pub id : String
  pub repo_owner : String
  pub repo_name : String
  pub issue_number : Option ℕ
  pub pr_number : Option ℕ
  pub state : String
  pub risk_level : String
  pub generation : ℕ
  pub current_issue_snapshot : Option String
  pub current_spec_id : Option String
  pub current_spec : Option String
  pub current_plan_id : Option String
  pub current_plan : Option String
  pub current_approval_id : Option String
  pub current_approval : Option String
  pub current_head : Option String
  pub current_base : Option String
  pub current_module : Option String
  pub current_attempt : ℕ
  pub created_at : ℕ
  pub updated_at : ℕ
  pub locked_by : Option String
  pub locked_until : Option ℕ
  pub version : ℕ

pub record NewWorkflowRunInput : Type 0 where
  pub id : String
  pub repo_owner : String
  pub repo_name : String
  pub issue_number : Option ℕ
  pub pr_number : Option ℕ
  pub state : String
  pub risk_level : Option String
  pub generation : Option ℕ
  pub current_attempt : Option ℕ

-- `WorkflowRunPatch`; an undefined field is `none`.
pub record WorkflowRunPatch : Type 0 where
  pub repo_owner : Option String
  pub repo_name : Option String
  pub issue_number : Option (Option ℕ)
  pub pr_number : Option (Option ℕ)
  pub state : Option String
  pub risk_level : Option String
  pub generation : Option ℕ
  pub current_attempt : Option ℕ

abbrev pub Runs : Type 0
Runs = List (String × WorkflowRun)

-- What a call returns or throws. The expected version of a conflict on `create` is -1.
pub data Result : Type 0 where
  done : WorkflowRun → Result
  not_found : (id : String) → Result
  create_conflict : (id : String) → Result
  conflict : (id : String) (expected actual : ℕ) → Result

abbrev pub new_run : NewWorkflowRunInput → ℕ → WorkflowRun
new_run i now = record {
  id = i.id;
  repo_owner = i.repo_owner;
  repo_name = i.repo_name;
  issue_number = i.issue_number;
  pr_number = i.pr_number;
  state = i.state;
  risk_level = or_else i.risk_level "unknown";
  generation = or_else i.generation 1;
  current_issue_snapshot = none;
  current_spec_id = none;
  current_spec = none;
  current_plan_id = none;
  current_plan = none;
  current_approval_id = none;
  current_approval = none;
  current_head = none;
  current_base = none;
  current_module = none;
  current_attempt = or_else i.current_attempt 0;
  created_at = now;
  updated_at = now;
  locked_by = none;
  locked_until = none;
  version = 0;
}

abbrev pub create_at : NewWorkflowRunInput → ℕ → Runs → Option WorkflowRun → Result × Runs
create_at i now rows (some row) = (create_conflict i.id, rows)
create_at i now rows none = (done (new_run i now), Dict.set i.id (new_run i now) rows)

unfoldable pub create : NewWorkflowRunInput → ℕ → Runs → Result × Runs
create i now rows = create_at i now rows (Dict.get i.id rows)

unfoldable pub find_run : String → Runs → Option WorkflowRun
find_run id rows = Dict.get id rows

abbrev pub patched_run : WorkflowRun → WorkflowRunPatch → ℕ → WorkflowRun
patched_run row patch now = record row {
  repo_owner = or_else patch.repo_owner row.repo_owner;
  repo_name = or_else patch.repo_name row.repo_name;
  issue_number = or_else patch.issue_number row.issue_number;
  pr_number = or_else patch.pr_number row.pr_number;
  state = or_else patch.state row.state;
  risk_level = or_else patch.risk_level row.risk_level;
  generation = or_else patch.generation row.generation;
  current_attempt = or_else patch.current_attempt row.current_attempt;
  updated_at = now;
  version = row.version + 1;
}

abbrev pub update_row :
    String → ℕ → WorkflowRunPatch → ℕ → Runs → Option WorkflowRun → Result × Runs
update_row id expected patch now rows none = (not_found id, rows)
update_row id expected patch now rows (some row) =
    if row.version == expected
    then (done (patched_run row patch now), Dict.set id (patched_run row patch now) rows)
    else (conflict id expected row.version, rows)

unfoldable pub update : String → ℕ → WorkflowRunPatch → ℕ → Runs → Result × Runs
update id expected patch now rows = update_row id expected patch now rows (Dict.get id rows)

abbrev no_patch : WorkflowRunPatch
no_patch = record {
  repo_owner = none;
  repo_name = none;
  issue_number = none;
  pr_number = none;
  state = none;
  risk_level = none;
  generation = none;
  current_attempt = none;
}

unfoldable pub bump_updated_at : String → ℕ → ℕ → Runs → Result × Runs
bump_updated_at id expected now rows = update id expected no_patch now rows

abbrev is_issue : Option ℕ → ℕ → Bool
is_issue none n = false
is_issue (some m) n = m == n

unfoldable pub list_by_issue : String → String → ℕ → Runs → List WorkflowRun
list_by_issue owner name issue rows =
    select
      (λ r. str_eq r.repo_owner owner && (str_eq r.repo_name name && is_issue r.issue_number issue))
      (Dict.values rows)
