-- ===== src/Merge/Evaluator.antt =====
-- merge/github-state-hydrator.ts and merge/merge-final-evaluator.ts: the live PR is read again, the
-- gates are aggregated for its head and base, and the decision is written to the artifact store.
-- The two GitHub answers are arguments; SHA-256 is a parameter.
pub mod Decision
mod Types
use github_auto_dev.Base.{
  ℕ, ltb, String, str_eq, Option, none, some, List, [], ◌∷◌, ◌++◌, Bool, true, false, not, ◌&&◌,
  is_empty, length, or_else, if◌then◌else◌,
}
use github_auto_dev.Artifacts.{Store, raw_payload, compute_artifact_key, write}
use github_auto_dev.Base.Text.{◌<>◌, show, take_chars}
use github_auto_dev.Base.Dict
use github_auto_dev.Schemas.StableJson.{
  Json, num, str, arr, obj, end, field, texts, stable_json_stringify,
}
use github_auto_dev.Merge.Gates.{Signals, Evaluations, AggregatedGates, passed?, aggregate}
unfoldable pub use Types.*

abbrev pub kind_text : MergeDecisionKind → String
kind_text merge = "merge"
kind_text refuse = "refuse"
kind_text queue = "queue"

abbrev pub state_text : MergeableState → String
state_text clean = "clean"
state_text blocked = "blocked"
state_text behind = "behind"
state_text dirty = "dirty"
state_text unknown = "unknown"
state_text unstable = "unstable"

abbrev drift_text : String → String → String → String
drift_text what tested current =
    what <> " drift: tested=" <> take_chars 10 tested <> " current=" <> take_chars 10 current

-- 1. The reasons that GitHub's own view of the PR gives.
abbrev pub state_reasons : MergeableState → List String
state_reasons blocked = "github mergeable_state=blocked" ∷ []
state_reasons dirty = "github mergeable_state=dirty (merge conflicts)" ∷ []
state_reasons _ = []

-- 2. The head has moved: one reason for the tested head and one for the reviewed head.
abbrev pub head_reasons : String → String → List String
head_reasons tested current =
    if not (str_eq current tested)
    then drift_text "head_sha" tested current ∷ drift_text "reviewed_head_sha" tested current ∷ []
    else []

abbrev bool_text : Bool → String
bool_text true = "true"
bool_text false = "false"

-- 3. A high-risk PR without its human gate.
abbrev pub human_reasons : Bool → Bool → List String
human_reasons required passed =
    if required && not passed
    then ("human_approved_head_sha mismatch or missing for high-risk PR (passed="
        <> bool_text passed
        <> ")")
      ∷ []
    else []

-- 5. The gates.
abbrev pub gate_reasons : AggregatedGates → List String
gate_reasons a =
    if not a.mergeable
    then ("gate not mergeable: "
        <> show (length a.excluded_stale)
        <> " stale signal(s) excluded; check per-gate reasons")
      ∷ []
    else []

-- 6. Branch protection.
abbrev pub protection_reasons : Option BranchProtection → AggregatedGates → List String
protection_reasons none a = []
protection_reasons (some p) a =
    if ltb 0 p.required_check_count && not a.mergeable
    then ("branch protection requires "
        <> show p.required_check_count
        <> " check(s); merge would fail")
      ∷ []
    else []

-- The decision and its reasons, for the PR as it is now.
abbrev pub is_queue : BaseAdvancedPolicy → Bool
is_queue queue_it = true
is_queue refuse_it = false

unfoldable pub decide :
    BaseAdvancedPolicy
    → EvaluateInput
    → LivePr
    → Option BranchProtection
    → AggregatedGates
    → MergeDecisionKind × List String
decide policy i live protection a =
    let early =
      state_reasons live.mergeable_state
      ++ (head_reasons i.tested_head live.head
          ++ human_reasons i.requires_human_review (passed? a.gates.human_review)) in
    let advanced = not (str_eq live.base i.tested_base) in
    let drift = early ++ drift_text "base_sha" i.tested_base live.base ∷ [] in
    let before = if advanced then drift else early in
    let reasons = before ++ (gate_reasons a ++ protection_reasons protection a) in
    if advanced && is_queue policy
    then (queue, drift)
    else (if is_empty reasons && a.mergeable then merge else refuse, reasons)

-- The body that the digest covers.
unfoldable pub decision_body : EvaluateInput → LivePr → MergeDecisionKind → List String → Json
decision_body i live kind reasons = obj (
    field "kind" (str "merge_decision") (
      field "runId" (str i.run_id) (
        field "prNumber" (num i.pr_number) (
          field "decision" (str (kind_text kind)) (
            field "currentHeadSha" (str live.head) (
              field "testedHeadSha" (str i.tested_head) (
                field "testedBaseSha" (str i.tested_base) (
                  field "currentBaseSha" (str live.base) (
                    field "reasons" (arr (texts reasons)) (
                      field "mergeableState" (str (state_text live.mergeable_state))
                        (field "createdAt" (str i.now) end)))))))))))

module _ (sha256_hex : String → String) where
  unfoldable pub persist :
      EvaluateInput
      → LivePr
      → AggregatedGates
      → MergeDecisionKind
      → List String
      → Store
      → EvaluateResult × Store
  persist i live a kind reasons store =
      let content = stable_json_stringify (decision_body i live kind reasons) in
      let key = compute_artifact_key sha256_hex content in
      (
        record {
          decision = record {
            run_id = i.run_id;
            pr_number = i.pr_number;
            decision = kind;
            current_head = live.head;
            tested_head = i.tested_head;
            tested_base = i.tested_base;
            current_base = live.base;
            digest = key;
            reasons = reasons;
            created_at = i.now;
          };
          aggregated = a;
          live = live;
          artifact_ref = key;
        },
        write
            (record {
              kind = raw_payload;
              key = key;
              content = content;
              repo = i.repo;
              run_id = some i.run_id;
              created_at = i.now;
            })
            store,
      )

  -- The rest of `evaluate`, once the PR is read.
  unfoldable pub evaluate_hydrated :
      BaseAdvancedPolicy
      → EvaluateInput
      → Signals
      → Store
      → HydrateResult
      → Option (EvaluateResult × Store)
  evaluate_hydrated policy i signals store not_found = none
  evaluate_hydrated policy i signals store (not_open s) = none
  evaluate_hydrated policy i signals store (hydrated live protection) =
      let a =
        aggregate signals
          (record {
            run_id = i.run_id;
            pr_number = i.pr_number;
            head = live.head;
            base = live.base;
          })
          i.requires_human_review in
      let d = decide policy i live protection a in some (persist i live a d.0 d.1 store)

  -- `none` is the error that the hydrator throws, before anything is written.
  unfoldable pub evaluate :
      BaseAdvancedPolicy
      → EvaluateInput
      → Option LivePr
      → Option BranchProtection
      → Signals
      → Store
      → Option (EvaluateResult × Store)
  evaluate policy i pr rule signals store =
      evaluate_hydrated policy i signals store (hydrate pr rule)
