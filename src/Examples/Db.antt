-- ===== src/Examples/Db.antt =====
-- Versions and the lock of a concrete run.
use github_auto_dev.Base.{here, String, ◌≡◌, ◌≤◌, ◌⊎◌, refl, none, some, [], ◌∷◌}
use github_auto_dev.Base.Dict
use github_auto_dev.Db.WorkflowRuns.{
  NewWorkflowRunInput, WorkflowRunPatch, Runs, done as written, new_run, patched_run, create,
  update,
}
use github_auto_dev.Db.WorkflowRuns.Versions.{updates, after_all, IsRefused, update_once}
use github_auto_dev.Db.RunLock.{
  Calls, no_calls, acquire, called, left, call, leave, Steps, done, step,
}
use github_auto_dev.Db.RunLock.Exclusion.{exclusive}
use github_auto_dev.Db.RunLock.Progress.{steps_of, left_over, GoesOn, IsIdle, AllLeft, served}

abbrev start : NewWorkflowRunInput
start = record {
  id = "run";
  repo_owner = "o";
  repo_name = "n";
  issue_number = some 1;
  pr_number = none;
  state = "INTAKE";
  risk_level = none;
  generation = none;
  current_attempt = none;
}

abbrev rows : Runs
rows = ("run", new_run start 5) ∷ []

abbrev to_plan : WorkflowRunPatch
to_plan = record {
  repo_owner = none;
  repo_name = none;
  issue_number = none;
  pr_number = none;
  state = some "PLAN";
  risk_level = none;
  generation = none;
  current_attempt = none;
}

created : (create start 5 []).1 ≡ rows
unfolding create Dict.get Dict.set
created = refl

first_wins : (update "run" 0 to_plan 6 rows).0 ≡ written (patched_run (new_run start 5) to_plan 6)
unfolding update Dict.get
first_wins = refl

update_once_example :
    IsRefused "run" 0
      (after_all (updates "run" 1 to_plan 7 ∷ []) (update "run" 0 to_plan 6 rows).1)
      (update "run" 0 to_plan 8
        (after_all (updates "run" 1 to_plan 7 ∷ []) (update "run" 0 to_plan 6 rows).1))
update_once_example =
    update_once "run" 0 to_plan to_plan 6 8 rows (patched_run (new_run start 5) to_plan 6)
      (updates "run" 1 to_plan 7 ∷ []) first_wins

abbrev entered : Calls
entered = called "a" no_calls

abbrev both_called : Calls
both_called = called "b" entered

two_calls : Steps no_calls both_called
two_calls = step (call "a") (step (call "b") done)

exclusive_example : (◌≡◌ {A = String} "a" "a") × (both_called.lock.holder ≡ some "a")
unfolding called acquire
exclusive_example = exclusive "a" "a" two_calls (here refl) (here refl)

-- The first call leaves, which wakes the second.
abbrev after_first : Calls
after_first = left "a" [] both_called

first_leaves : Steps both_called after_first
unfolding called acquire
first_leaves = step (leave "a" [] [] refl) done

served_example :
    (steps_of first_leaves ≤ left_over both_called)
    × (GoesOn after_first ⊎ (IsIdle after_first × AllLeft two_calls first_leaves))
unfolding first_leaves
served_example = served two_calls first_leaves refl
