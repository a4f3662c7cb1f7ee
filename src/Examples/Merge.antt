-- ===== src/Examples/Merge.antt =====
-- A run whose signals are all green, from the gates to the merge.
use github_auto_dev.Base.{
  Bool, String, ◌≡◌, refl, ◌↔◌, ◌≢◌, Option, none, some, [], ◌∷◌, true, false, select, find, any,
  All, All-In, In, here, ◌≤◌, ℕ, ◌==◌, ◌&&◌, str_eq, if◌then◌else◌,
}
use github_auto_dev.Base.Dict
use github_auto_dev.Base.Sort
use github_auto_dev.Db.Findings.{FindingRow, dismissed, find_by_pr, find_blocking_by_pr}
use github_auto_dev.Merge.Gates.{
  Signals, ReadInput, AiReview, code, security, low, passed?, aggregate,
}
use github_auto_dev.Merge.Gates.Aggregation.{
  IsCleared, AllCompleted, aggregate-mergeable_sound, aggregate-mergeable_complete,
}
use github_auto_dev.Artifacts.{Store}
use github_auto_dev.Merge.Evaluator.{
  LivePr, BranchProtection, clean, opened, EvaluateInput, EvaluateResult, queue_it, queue, merge,
  hydrate, decide, evaluate, evaluate_hydrated, persist, is_queue,
}
use github_auto_dev.Merge.Evaluator.Decision.{
  IsReady, tested_at, gates_now, decide-queue_iff, decide-merge_iff, evaluate-merge_sound,
}
use github_auto_dev.Merge.Execution.{
  MergeInput, MergeTokenProfile, required_scopes, forbidden_scopes, validate_merge_token_profile,
  merge_pr, check_protection, merge_call,
}
use github_auto_dev.Merge.Execution.Credential.{validate-is_merge_manager_iff}
use github_auto_dev.Merge.Execution.Safety.{
  Enforces, MayMerge, merge_calls, merge_pr-calls, evaluate-merge_pr_safe, Trace, merge_pr-Trace,
}

abbrev closed_finding : FindingRow
closed_finding = record {
  id = "f1";
  finding_hash = "x";
  run_id = some "run";
  pr_number = some 7;
  head_sha = "h1";
  severity = "high";
  category = "security:auth";
  file_path = none;
  line_number = none;
  title = "t";
  description = "d";
  recommendation = none;
  blocking = true;
  status = dismissed;
  closed_by = some "maintainer";
  close_reason = some "false alarm";
  created_at = 1;
  closed_at = some 2;
}

abbrev review_of : AiReview
review_of = record {
  run_id = "run";
  head = "h1";
  reviewer = code;
  completed = true;
  review_ref = "r1";
}

abbrev signals : Signals
signals = record {
  test = some (record { run_id = "run"; head = "h1"; base = "b1"; passed = true; log_ref = "log" });
  reviews = review_of ∷ record review_of { reviewer = security } ∷ [];
  approval = some (record { actor = "ann"; head = "h1"; approved_at = "now"; source_ref = none });
  risk =
      some (record { run_id = "run"; head = "h1"; severity = low; requires_human_review = true });
  findings = ("f1", closed_finding) ∷ [];
}

abbrev at : ReadInput
at = record { run_id = "run"; pr_number = 7; head = "h1"; base = "b1" }

sorted : Unit {0}
unfolding aggregate find_by_pr find_blocking_by_pr Sort.sort Dict.values select find
sorted = tt

cleared : (aggregate signals at true).mergeable ≡ true
unfolding sorted
cleared = refl

aggregate-mergeable_sound_example : IsCleared signals at
aggregate-mergeable_sound_example = aggregate-mergeable_sound signals at true cleared

all_completed : AllCompleted at signals.reviews
all_completed r i e = All-In (λ r. r.completed ≡ true) r signals.reviews (refl, (refl, tt)) i

aggregate-mergeable_complete_example : (aggregate signals at false).mergeable ≡ true
aggregate-mergeable_complete_example =
    aggregate-mergeable_complete signals at false aggregate-mergeable_sound_example all_completed

abbrev live : LivePr
live = record {
  pr_number = 7;
  head = "h1";
  base = "b1";
  base_branch = "main";
  mergeable_state = clean;
  state = opened;
  is_protected = true;
}

abbrev rule : BranchProtection
rule = record {
  required_check_count = 4;
  required_review_count = 1;
  strict_checks = true;
  enforce_admins = true;
  dismisses_stale_reviews = true;
}

abbrev asked : EvaluateInput
asked = record {
  run_id = "run";
  repo = "o/r";
  pr_number = 7;
  tested_head = "h1";
  tested_base = "b1";
  requires_human_review = true;
  now = "2026-01-01T00:00:00.000Z";
}

-- A push and an advance of the base together: the policy decides, not the push.
abbrev moved : LivePr
moved = record live { head = "h2"; base = "b2" }

moved_queued : (decide queue_it asked moved none (gates_now signals asked moved)).0 ≡ queue
unfolding decide
moved_queued = refl

decide-queue_iff_example :
    ((decide queue_it asked moved none (gates_now signals asked moved)).0 ≡ queue)
    ↔ (◌≢◌ {A = String} "b2" "b1" × (is_queue queue_it ≡ true))
decide-queue_iff_example =
    decide-queue_iff queue_it asked moved none (gates_now signals asked moved)

decide-merge_iff_example :
    ((decide queue_it asked live (some rule) (gates_now signals asked live)).0 ≡ merge) ↔ (
      IsReady asked live
      × ((gates_now signals asked live).mergeable ≡ true)
      × (◌≡◌ {A = Bool} true true
          → passed? (gates_now signals asked live).gates.human_review ≡ true))
decide-merge_iff_example =
    decide-merge_iff queue_it asked live (some rule) (gates_now signals asked live)

-- A stand-in for SHA-256.
abbrev digest : String → String
digest s = s

abbrev out : EvaluateResult × Store
out = persist digest asked live (gates_now signals asked live) merge [] []

evaluated : evaluate digest queue_it asked (some live) (some rule) signals [] ≡ some out
unfolding evaluate evaluate_hydrated hydrate decide sorted
evaluated = refl

evaluate-merge_sound_example :
    (pr : LivePr) × ◌≡◌ {A = Option LivePr} (some live) (some pr)
    × (pr.state ≡ opened)
    × IsReady asked pr
    × IsCleared signals (tested_at asked)
unfolding persist
evaluate-merge_sound_example =
    evaluate-merge_sound digest queue_it asked (some live) (some rule) signals [] out evaluated refl

abbrev order : MergeInput
order = record {
  run_id = "run";
  repo = "o/r";
  pr_number = 7;
  decision = out.0.decision;
  protection = some rule;
  requires_human_review = true;
  human_review_passed = true;
}

abbrev credential : MergeTokenProfile
credential = validate_merge_token_profile "secret" required_scopes true

validate-is_merge_manager_iff_example : (credential.is_merge_manager ≡ true) ↔ (
    ◌≡◌ {A = Bool} true true
    × ◌≢◌ {A = String} "secret" ""
    × All (λ s. In s required_scopes) required_scopes
    × All (λ s. ¬ In s required_scopes) forbidden_scopes)
validate-is_merge_manager_iff_example = validate-is_merge_manager_iff "secret" required_scopes true

merge_pr-calls_example :
    ((merge_calls (merge_pr order credential (some "c1") "a1").1 ≡ 1) ↔ MayMerge order credential)
    × (merge_calls (merge_pr order credential (some "c1") "a1").1 ≤ 1)
merge_pr-calls_example = merge_pr-calls order credential (some "c1") "a1"

merge_pr-Trace_example :
    Trace order credential
      (some "c1")
      "a1"
      (merge_pr order credential (some "c1") "a1").0
      (merge_pr order credential (some "c1") "a1").1
merge_pr-Trace_example = merge_pr-Trace order credential (some "c1") "a1"

called : In (merge_call "o/r" 7) (merge_pr order credential (some "c1") "a1").1
unfolding merge_pr check_protection validate_merge_token_profile any select persist
called = here refl

-- GitHub with one PR.
abbrev read_pr : String → ℕ → Option LivePr
read_pr repo n = if str_eq repo asked.repo && (n == asked.pr_number) then some live else none

evaluate-merge_pr_safe_example :
    ((pr : LivePr) × (read_pr "o/r" 7 ≡ some pr) × (pr.state ≡ opened) × IsReady asked pr)
    × IsCleared signals (tested_at asked)
    × Enforces (some rule)
    × All (λ s. ¬ In s required_scopes) forbidden_scopes
evaluate-merge_pr_safe_example =
    evaluate-merge_pr_safe digest queue_it asked read_pr (some rule) signals [] out order "secret"
      required_scopes true (some "c1") "a1" "o/r" 7 evaluated refl refl refl called
