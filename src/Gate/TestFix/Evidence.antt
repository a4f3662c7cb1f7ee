-- ===== src/Gate/TestFix/Evidence.antt =====
-- What the loop leaves in the artifact store.
use github_auto_dev.Base.{
  ℕ, zero, suc, String, ◌≡◌, Option, none, some, List, [], ◌∷◌, ◌++◌, true, false, Bool-cases, inl,
  inr, All, All-append, All-map,
}
use github_auto_dev.Artifacts.{Store}
use github_auto_dev.Artifacts.Store.{IsStoredAt, write-read, write-IsStoredAt}
use github_auto_dev.Gate.TestFix.Outcome.{
  do_round-passed, do_round-failed, is_passed, is_stuck, is_next, StepIs-all,
}
use github_auto_dev.Gate.TestFix.{
  TestFixLoopInput, RoundRecord, Seen, Step, passed, stuck, next, TestFixLoopResult,
  persist_fix_artifact, dispatch, fail_round, do_round, follow, run_from, run, synthetic_pass_round,
}

-- A round whose gate failed has left its artifact.
abbrev pub HasArtifact : Store → RoundRecord → Type 0
HasArtifact store r = r.gate.passed ≡ false → IsStoredAt r.fix_result_ref store

-- One store has whatever another has.
Extends : Store → Store → Type 0
Extends before after = (key : String) → IsStoredAt key before → IsStoredAt key after

persist-Extends :
    (i : TestFixLoopInput) (n : ℕ) (log debug fix : String) (fps : List String) (store : Store)
    → Extends store (persist_fix_artifact i n log debug fix fps store).1
unfolding Extends persist_fix_artifact
persist-Extends i n log debug fix fps store key at_key = write-IsStoredAt _ store key at_key

persist-IsStoredAt :
    (i : TestFixLoopInput) (n : ℕ) (log debug fix : String) (fps : List String) (store : Store)
    → IsStoredAt
        (persist_fix_artifact i n log debug fix fps store).0
        (persist_fix_artifact i n log debug fix fps store).1
unfolding persist_fix_artifact
persist-IsStoredAt i n log debug fix fps store = (_, (write-read _ store "").0)

abbrev Kept : Store → Step → Type 0
Kept store (passed r) = r.gate.passed ≡ true
Kept store (stuck r kept) = Extends store kept × HasArtifact kept r
Kept store (next r marked kept) = Extends store kept × HasArtifact kept r

dispatch-Kept :
    (i : TestFixLoopInput) (n : ℕ) (log : String) (fps : List String) (marked : Seen)
    (store : Store) (o : Option String)
    → Kept store (dispatch i n log fps marked store o)
unfolding dispatch
dispatch-Kept i n log fps marked store (some fp) =
    (persist-Extends i n _ _ _ fps store, λ _. persist-IsStoredAt i n _ _ _ fps store)
dispatch-Kept i n log fps marked store none =
    (persist-Extends i n _ _ _ fps store, λ _. persist-IsStoredAt i n _ _ _ fps store)

do_round-Kept :
    (i : TestFixLoopInput) (n : ℕ) (seen : Seen) (store : Store)
    → Kept store (do_round i n seen store)
unfolding fail_round synthetic_pass_round
do_round-Kept i n seen store = elim (Bool-cases (i.gate n).passed) [
  | inl good ↦ rw (do_round-passed i n seen store good) good
  | inr bad ↦ rw (do_round-failed i n seen store bad) (dispatch-Kept i n _ _ _ store _)
]

abbrev pub AllKept : TestFixLoopResult × Store → Type 0
AllKept out = All (HasArtifact out.1) out.0.rounds

AllKept-more :
    (before after : Store) (rounds : List RoundRecord) (r : RoundRecord)
    → Extends before after
    → All (HasArtifact before) rounds
    → HasArtifact after r
    → All (HasArtifact after) (rounds ++ r ∷ [])
unfolding Extends
AllKept-more before after rounds r e all one =
    All-append (HasArtifact after) rounds (r ∷ [])
      (All-map (HasArtifact before) (HasArtifact after) (λ x h bad. e x.fix_result_ref (h bad))
        rounds all)
      (one, tt)

Extends-refl : (store : Store) → Extends store store
unfolding Extends
Extends-refl store key h = h

run_from-AllKept :
    (i : TestFixLoopInput) (left n : ℕ) (seen : Seen) (rounds : List RoundRecord) (store : Store)
    → All (HasArtifact store) rounds
    → AllKept (run_from i left n seen rounds store)
unfolding run_from follow
run_from-AllKept i zero n seen rounds store h = h
run_from-AllKept i (suc left) n seen rounds store h =
    let did = do_round-Kept i n seen store in
    elim (StepIs-all (do_round i n seen store)) [
      | is_passed r e ↦
          rw e (
            AllKept-more store store rounds r (Extends-refl store) h (λ bad. cc (bad, rw e at did)))
      | is_stuck r kept e ↦ let k = rw e at did in rw e (AllKept-more store kept rounds r k.0 h k.1)
      | is_next r marked kept e ↦
          let k = rw e at did in
          rw e (
            run_from-AllKept i left (suc n) marked (rounds ++ r ∷ []) kept
              (AllKept-more store kept rounds r k.0 h k.1))
    ]

-- Every round whose gate failed, in whichever way the loop ends, has its fix artifact in the store
-- under the reference of its record.
pub run-AllKept : (i : TestFixLoopInput) (store : Store) → AllKept (run i store)
unfolding run
run-AllKept i store = run_from-AllKept i _ 1 [] [] store tt
