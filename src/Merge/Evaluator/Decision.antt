-- ===== src/Merge/Evaluator/Decision.antt =====
-- When the evaluator decides to merge, to queue and to refuse, and what it leaves in the store.
use github_auto_dev.Base.{
  String, ◌≡◌, refl, ◌≢◌, ◌↔◌, sym, ap, ◌∙◌, Option, none, some, List, true, arith, eq_iff, eq_refl,
  is_empty,
}
use github_auto_dev.Base.Dict
use mathlib.Core.Path.{subst}
use github_auto_dev.Schemas.StableJson.{stable_json_stringify}
use github_auto_dev.Merge.Gates.{AggregatedGates, Signals, ReadInput, passed?, aggregate}
use github_auto_dev.Merge.Gates.Aggregation.{IsCleared, aggregate-mergeable_sound}
use github_auto_dev.Artifacts.{Artifact, Store, raw_payload, compute_artifact_key, write}
use github_auto_dev.Merge.Evaluator.{
  LivePr, opened, BranchProtection, MergeableState, blocked, dirty, MergeDecisionKind, merge, queue,
  BaseAdvancedPolicy, is_queue, EvaluateInput, EvaluateResult, state_reasons, decide, hydrate,
  persist, evaluate, decision_body, hydrated, evaluate_hydrated, HydrateResult,
}

-- What the evaluator asks of the PR before it merges.
abbrev pub IsReady : EvaluateInput → LivePr → Type 0
IsReady i live =
    (live.head ≡ i.tested_head)
    × (live.base ≡ i.tested_base)
    × (live.mergeable_state ≢ blocked)
    × (live.mergeable_state ≢ dirty)

state_reasons-nil :
    (s : MergeableState) → (is_empty (state_reasons s) ≡ true) ↔ ((s ≢ blocked) × (s ≢ dirty))
state_reasons-nil s = ground arith

-- The evaluator queues exactly when the base has moved and the policy is to queue, whatever else
-- is wrong with the PR.
pub decide-queue_iff :
    (policy : BaseAdvancedPolicy) (i : EvaluateInput) (live : LivePr) (p : Option BranchProtection)
    (a : AggregatedGates)
    → ((decide policy i live p a).0 ≡ queue)
      ↔ ((live.base ≢ i.tested_base) × (is_queue policy ≡ true))
unfolding decide
decide-queue_iff policy i live p a = ground (arith, eq_iff live.base i.tested_base)

-- It merges exactly when the head and the base are the tested ones, GitHub reports neither a block
-- nor a conflict, the gates are mergeable and a human review that is required has passed.
pub decide-merge_iff :
    (policy : BaseAdvancedPolicy) (i : EvaluateInput) (live : LivePr) (p : Option BranchProtection)
    (a : AggregatedGates)
    → ((decide policy i live p a).0 ≡ merge) ↔ (
        IsReady i live
        × (a.mergeable ≡ true)
        × (i.requires_human_review ≡ true → passed? a.gates.human_review ≡ true))
unfolding decide
decide-merge_iff policy i live p a =
    ground (arith, eq_iff live.base i.tested_base, eq_iff live.head i.tested_head)

-- The gates are read for the head and the base that the PR has now.
abbrev pub read_at : EvaluateInput → LivePr → ReadInput
read_at i live = record {
  run_id = i.run_id;
  pr_number = i.pr_number;
  head = live.head;
  base = live.base;
}

abbrev pub tested_at : EvaluateInput → ReadInput
tested_at i = record {
  run_id = i.run_id;
  pr_number = i.pr_number;
  head = i.tested_head;
  base = i.tested_base;
}

abbrev pub gates_now : Signals → EvaluateInput → LivePr → AggregatedGates
gates_now signals i live = aggregate signals (read_at i live) i.requires_human_review

hydrate-hydrated :
    (pr : Option LivePr) (rule : Option BranchProtection) (live : LivePr)
    (p : Option BranchProtection)
    → hydrate pr rule ≡ hydrated live p
    → (pr ≡ some live) × (live.state ≡ opened)
unfolding hydrate
hydrate-hydrated none rule live p h = cc
hydrate-hydrated (some pr) rule live p h = ground arith

module _ (sha256_hex : String → String) where
  -- What `persist` makes of the decision for the PR.
  abbrev outcome :
      BaseAdvancedPolicy
      → EvaluateInput
      → Signals
      → Store
      → LivePr
      → Option BranchProtection
      → EvaluateResult × Store
  outcome policy i signals store live p =
      let d = decide policy i live p (gates_now signals i live) in
      persist sha256_hex i live (gates_now signals i live) d.0 d.1 store

  evaluate_hydrated-some :
      (policy : BaseAdvancedPolicy) (i : EvaluateInput) (signals : Signals) (store : Store)
      (r : HydrateResult) (out : EvaluateResult × Store)
      → evaluate_hydrated sha256_hex policy i signals store r ≡ some out
      → (live : LivePr) × (p : Option BranchProtection) × (r ≡ hydrated live p)
        × (outcome policy i signals store live p ≡ out)
  unfolding evaluate_hydrated
  evaluate_hydrated-some policy i signals store (hydrated live p) out h = (live, p, refl, cc)
  evaluate_hydrated-some policy i signals store HydrateResult.not_found out h = cc
  evaluate_hydrated-some policy i signals store (HydrateResult.not_open s) out h = cc

  -- If the decision is to merge, the PR is open, its head and base are the tested ones, GitHub
  -- reports neither a block nor a conflict, and the signals clear the tested head and base.
  pub evaluate-merge_sound :
      (policy : BaseAdvancedPolicy) (i : EvaluateInput) (pr : Option LivePr)
      (rule : Option BranchProtection) (signals : Signals) (store : Store)
      (out : EvaluateResult × Store)
      → evaluate sha256_hex policy i pr rule signals store ≡ some out
      → out.0.decision.decision ≡ merge
      → (live : LivePr) × (pr ≡ some live)
        × (live.state ≡ opened)
        × IsReady i live
        × IsCleared signals (tested_at i)
  unfolding evaluate persist
  evaluate-merge_sound policy i pr rule signals store out h m =
      let (live, p, from, made) =
        evaluate_hydrated-some policy i signals store (hydrate pr rule) out h in
      let (found, is) = hydrate-hydrated pr rule live p from in
      let chosen : (decide policy i live p (gates_now signals i live)).0 ≡ merge =
        ap (λ (o : EvaluateResult × Store). o.0.decision.decision) made ∙ m in
      let (ready, green, _) =
        (decide-merge_iff policy i live p (gates_now signals i live)).0 chosen in
      (
        live,
        found,
        is,
        ready,
        rw (← ready.0, ← ready.1)
            (aggregate-mergeable_sound signals (read_at i live) i.requires_human_review green),
      )

  -- The decision's artifact lies under its digest, and what lies under other keys is unchanged.
  abbrev pub IsStored : EvaluateResult × Store → Store → Type 0
  IsStored out store =
      (art : Artifact) × (Dict.get out.0.decision.digest out.1 ≡ some art)
      × (out.0.decision.digest ≡ compute_artifact_key sha256_hex art.content)
      × ((k : String) → k ≢ out.0.decision.digest → Dict.get k out.1 ≡ Dict.get k store)

  persist-IsStored :
      (i : EvaluateInput) (live : LivePr) (a : AggregatedGates) (kind : MergeDecisionKind)
      (reasons : List String) (store : Store)
      → IsStored (persist sha256_hex i live a kind reasons store) store
  unfolding persist write
  persist-IsStored i live a kind reasons store =
      let content = stable_json_stringify (decision_body i live kind reasons) in
      let key = compute_artifact_key sha256_hex content in
      (
        record {
          kind = raw_payload;
          key = key;
          content = content;
          repo = i.repo;
          run_id = some i.run_id;
          created_at = i.now;
        },
        simp (Dict.get-set, eq_refl),
        refl,
        λ k n. Dict.get-set_ne key k _ store (λ e. n (sym e)),
      )

  -- Every evaluation that returns has stored the canonical text of its decision under the digest
  -- that the decision carries, the hash of that text, and has left what lies under other keys alone.
  pub evaluate-IsStored :
      (policy : BaseAdvancedPolicy) (i : EvaluateInput) (pr : Option LivePr)
      (rule : Option BranchProtection) (signals : Signals) (store : Store)
      (out : EvaluateResult × Store)
      → evaluate sha256_hex policy i pr rule signals store ≡ some out
      → IsStored out store
  unfolding evaluate
  evaluate-IsStored policy i pr rule signals store out h =
      let (live, p, from, made) =
        evaluate_hydrated-some policy i signals store (hydrate pr rule) out h in
      let a = gates_now signals i live in
      let d = decide policy i live p a in
      subst (λ o. IsStored o store) made (persist-IsStored i live a d.0 d.1 store)
