-- ===== src/Gate/TestFix/Outcome.antt =====
-- How the loop ends.
use github_auto_dev.Base.{
  if_true, if_false, ℕ, zero, suc, ◌+◌, ◌≤◌, leb, String, ◌≡◌, refl, ap, ◌∙◌, Option, none, some,
  List, [], ◌∷◌, ◌++◌, length, length-append, Bool, true, false, arith, Bool-cases, inl, inr, In,
  if◌then◌else◌, has, find, find_sound, find-none, All-In,
}
use github_auto_dev.Base.Dict
use github_auto_dev.Artifacts.{Store}
use github_auto_dev.Gate.{GateResult}
use github_auto_dev.Gate.TestFix.{
  TestFixLoopInput, TestFixLoopState, fixed, blocked, give_up, TestFixLoopResult, Seen, RoundRecord,
  Step, passed, stuck, next, compute_fingerprints, render_failure_log, count, mark, last_gate_of,
  limit, bound, do_round, fail_round, follow, dispatch, run_from, run, synthetic_pass_round,
}
use github_auto_dev.Gate.TestFix.Rounds.{
  compute_fingerprints-Distinct, count-mark, last_gate_of-append,
}

-- The fingerprints of a round's gate.
abbrev pub round_fingerprints : TestFixLoopInput → ℕ → List String
round_fingerprints i n = compute_fingerprints i (render_failure_log (i.gate n)) (i.gate n)

-- In how many of the first rounds a fingerprint occurs.
abbrev pub seen_in : TestFixLoopInput → ℕ → String → ℕ
seen_in i zero fp = 0
seen_in i (suc n) fp =
    let before = seen_in i n fp in
    if has (round_fingerprints i (suc n)) fp then suc before else before

-- The round's gate fails, and none of its fingerprints has occurred too often.
abbrev pub Continues : TestFixLoopInput → ℕ → Type 0
Continues i n =
    ((i.gate n).passed ≡ false)
    × ((fp : String) → In fp (round_fingerprints i n) → ¬ (limit i ≤ seen_in i n fp))

abbrev pub AllContinue : TestFixLoopInput → ℕ → Type 0
AllContinue i zero = Unit
AllContinue i (suc n) = AllContinue i n × Continues i (suc n)

abbrev pub last_of : TestFixLoopInput → ℕ → Option GateResult
last_of i zero = none
last_of i (suc n) = some (i.gate (suc n))

-- The end of the loop, with its rounds and its last gate result.
pub data Ended (i : TestFixLoopInput) : TestFixLoopState → ℕ → Option GateResult → Type 0 where
  was_fixed :
      {n : ℕ}
      → suc n ≤ bound i
      → AllContinue i n
      → (i.gate (suc n)).passed ≡ true
      → Ended i fixed (suc n) (some (i.gate (suc n)))
  was_blocked :
      {n : ℕ} {fp : String}
      → suc n ≤ bound i
      → AllContinue i n
      → (i.gate (suc n)).passed ≡ false
      → In fp (round_fingerprints i (suc n))
      → limit i ≤ seen_in i (suc n) fp
      → Ended i blocked (suc n) (some (i.gate (suc n)))
  gave_up : AllContinue i (bound i) → Ended i give_up (bound i) (last_of i (bound i))

-- The counts in hand are those of the rounds done.
abbrev Tallies : TestFixLoopInput → ℕ → Seen → Type 0
Tallies i n seen = (fp : String) → count fp seen ≡ seen_in i n fp

Tallies-mark :
    (i : TestFixLoopInput) (n : ℕ) (seen : Seen)
    → Tallies i n seen
    → Tallies i (suc n) (mark (round_fingerprints i (suc n)) seen)
Tallies-mark i n seen t fp =
    count-mark (round_fingerprints i (suc n)) seen fp (compute_fingerprints-Distinct i _ _)
    ∙ rw (t fp) refl

-- What a failed round does.
abbrev FailedStep : TestFixLoopInput → ℕ → Seen → Step → Type 0
FailedStep i n seen (passed r) = ⊥
FailedStep i n seen (stuck r kept) =
    (r.gate ≡ i.gate n)
    × ((fp : String) × In fp (round_fingerprints i n)
        × (limit i ≤ count fp (mark (round_fingerprints i n) seen)))
FailedStep i n seen (next r marked kept) =
    (r.gate ≡ i.gate n)
    × (marked ≡ mark (round_fingerprints i n) seen)
    × ((fp : String) → In fp (round_fingerprints i n) → ¬ (limit i ≤ count fp marked))

dispatch_lem :
    (i : TestFixLoopInput) (n : ℕ) (log : String) (seen : Seen) (store : Store) (o : Option String)
    → find
        (λ fp. leb (limit i) (count fp (mark (round_fingerprints i n) seen)))
        (round_fingerprints i n)
      ≡ o
    → FailedStep i n seen
        (dispatch i n log (round_fingerprints i n) (mark (round_fingerprints i n) seen) store o)
unfolding dispatch
dispatch_lem i n log seen store (some fp) e =
    let (j, t) =
      find_sound (λ fp. leb (limit i) (count fp (mark (round_fingerprints i n) seen)))
        (round_fingerprints i n) fp e in
    (refl, (fp, j, ground arith))
dispatch_lem i n log seen store none e =
    let test : String → Bool =
      λ fp. leb (limit i) (count fp (mark (round_fingerprints i n) seen)) in
    let low = find-none test (round_fingerprints i n) e in
    (
      refl,
      refl,
      λ fp j.
          let f = All-In (λ x. test x ≡ false) fp (round_fingerprints i n) low j in ground arith,
    )

fail_round_lem :
    (i : TestFixLoopInput) (n : ℕ) (seen : Seen) (store : Store)
    → FailedStep i n seen (fail_round i n seen store)
unfolding fail_round
fail_round_lem i n seen store = dispatch_lem i n _ seen store _ refl

pub do_round-passed :
    (i : TestFixLoopInput) (n : ℕ) (seen : Seen) (store : Store)
    → (i.gate n).passed ≡ true
    → do_round i n seen store ≡ passed (synthetic_pass_round i n (i.gate n))
unfolding do_round
do_round-passed i n seen store e = if_true (i.gate n).passed _ _ e

pub do_round-failed :
    (i : TestFixLoopInput) (n : ℕ) (seen : Seen) (store : Store)
    → (i.gate n).passed ≡ false
    → do_round i n seen store ≡ fail_round i n seen store
unfolding do_round
do_round-failed i n seen store e = if_false (i.gate n).passed _ _ e

pub data StepIs (s : Step) : Type 0 where
  is_passed : (r : RoundRecord) → s ≡ passed r → StepIs s
  is_stuck : (r : RoundRecord) (kept : Store) → s ≡ stuck r kept → StepIs s
  is_next : (r : RoundRecord) (marked : Seen) (kept : Store) → s ≡ next r marked kept → StepIs s

pub StepIs-all : (s : Step) → StepIs s
StepIs-all (passed r) = is_passed r refl
StepIs-all (stuck r kept) = is_stuck r kept refl
StepIs-all (next r marked kept) = is_next r marked kept refl

abbrev pub EndedBy : TestFixLoopInput → TestFixLoopResult → Type 0
EndedBy i out = Ended i out.final_state (length out.rounds) out.last_gate

pub one_more :
    (rs : List RoundRecord) (r : RoundRecord) (n : ℕ)
    → length rs ≡ n
    → length (rs ++ r ∷ []) ≡ suc n
one_more rs r n e = omega (arith, length-append rs (r ∷ []))

run_from-Ended :
    (i : TestFixLoopInput) (left n : ℕ) (seen : Seen) (rounds : List RoundRecord) (store : Store)
    → n + left ≡ bound i
    → Tallies i n seen
    → AllContinue i n
    → length rounds ≡ n
    → last_gate_of rounds ≡ last_of i n
    → EndedBy i (run_from i left (suc n) seen rounds store).0
unfolding run_from follow synthetic_pass_round
run_from-Ended i zero n seen rounds store b t c l g =
    let e : n ≡ bound i = omega arith in rw (l, g, e) (gave_up (rw e at c))
run_from-Ended i (suc left) n seen rounds store b t c l g =
    elim (Bool-cases (i.gate (suc n)).passed) [
      | inl good ↦
          rw
            (
              do_round-passed i (suc n) seen store good,
              one_more rounds (synthetic_pass_round i (suc n) (i.gate (suc n))) n l,
            )
            (was_fixed (omega arith) c good)
      | inr bad ↦ rw (do_round-failed i (suc n) seen store bad) (
          let did = fail_round_lem i (suc n) seen store in
          let tallies = Tallies-mark i n seen t in
          elim (StepIs-all (fail_round i (suc n) seen store)) [
            | is_passed r e ↦ absurd (rw e at did)
            | is_stuck r kept e ↦
                let (same, (fp, j, high)) = rw e at did in
                rw (e, one_more rounds r n l, same)
                  (was_blocked (omega arith) c bad j (rw (tallies fp) at high))
            | is_next r marked kept e ↦
                let (same, m, low) = rw e at did in
                let now : Tallies i (suc n) marked = rw m tallies in
                rw e (
                  run_from-Ended i left (suc n) marked (rounds ++ r ∷ []) kept (omega arith) now
                    (c, (bad, λ fp j. rw (now fp) at (low fp j))) (one_more rounds r n l)
                    (last_gate_of-append rounds r ∙ ap some same))
          ])
    ]

-- The loop ends in one of three ways. It is fixed in the first round whose gate passes, or blocked
-- in the first round with a fingerprint that has by then occurred in as many rounds as the limit;
-- both lie within the maximum of rounds. Otherwise it gives up after exactly the maximum. In every
-- round before, the gate failed and no fingerprint had reached the limit. The number of rounds
-- recorded and the last gate result are those of the rounds run.
pub run-Ended : (i : TestFixLoopInput) (store : Store) → EndedBy i (run i store).0
unfolding run Dict.get
run-Ended i store = run_from-Ended i (bound i) 0 [] [] store (omega arith) (λ fp. refl) tt refl refl
