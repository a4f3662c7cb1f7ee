-- ===== src/Gate/TestFix.antt =====
-- apps/runner-broker/src/gate/test-fix-loop.ts. What the gate, the failure parser, the agents and
-- the clock answer is a function of the round; SHA-256 is a parameter.
pub mod Rounds
pub mod Outcome
pub mod Evidence
use github_auto_dev.Base.{
  ℕ, zero, suc, leb, ◌+◌, ◌*◌, String, Option, none, some, List, [], ◌∷◌, ◌++◌, map, Bool, true,
  false, not, find, select, or_else, if◌then◌else◌, has,
}
use github_auto_dev.Base.Dict
use github_auto_dev.Base.Text.{◌<>◌, join, show}
use github_auto_dev.Schemas.StableJson.{
  Json, str, num, arr, obj, field, end, texts, stable_json_stringify,
}
use github_auto_dev.Artifacts.{Artifact, Store, raw_payload, compute_artifact_key, write}
use github_auto_dev.Gate.{AdapterRunResult, GateResult}
use github_auto_dev.Gate.Fingerprint.{FailureSpan, fingerprint}

abbrev pub max_rounds : ℕ
max_rounds = 5

abbrev pub same_fingerprint_limit : ℕ
same_fingerprint_limit = 3

pub data TestFixLoopState : Type 0 where
  fixed blocked give_up : TestFixLoopState

pub record RoundRecord : Type 0 where
  pub round : ℕ
  pub gate : GateResult
  pub test_result_ref : String
  pub fix_result_ref : String
  pub fingerprints : List String

pub record TestFixLoopResult : Type 0 where
  pub final_state : TestFixLoopState
  pub rounds : List RoundRecord
  pub last_gate : Option GateResult

-- The input with what its ports answer in each round. `debugger` and `fix` get the wrapped log, and
-- `fix` the debugger's output. `now` is the time at which the round's artifact is written.
pub record TestFixLoopInput : Type 0 where
  pub head_sha : String
  pub base_sha : String
  pub repo : String
  pub run_id : Option String
  pub max : Option ℕ
  pub fingerprint_limit : Option ℕ
  pub gate : ℕ → GateResult
  pub parse_failures : String → String → List FailureSpan
  pub wrap_untrusted : String → String
  pub debugger : ℕ → String → String
  pub fix : ℕ → String → String → String
  pub now : ℕ → String
  pub sha256_hex : String → String

-- How often each fingerprint has been seen.
abbrev pub Seen : Type 0
Seen = List (String × ℕ)

abbrev adapter_log : AdapterRunResult → String
adapter_log r =
    "### "
    <> r.name
    <> " (exit "
    <> show r.exit_code
    <> ")\nstdout:\n"
    <> r.stdout
    <> "\nstderr:\n"
    <> r.stderr

unfoldable pub render_failure_log : GateResult → String
render_failure_log gate = join "\n\n" (map adapter_log (Dict.values gate.adapters))

-- The first occurrence of each text that is not in `seen`.
unfoldable pub unique : List String → List String → List String
unique seen [] = []
unique seen (x ∷ xs) =
    let rest = unique (if has seen x then seen else x ∷ seen) xs in
    if has seen x then rest else x ∷ rest

abbrev pub all_spans : TestFixLoopInput → String → List String → List FailureSpan
all_spans i log [] = []
all_spans i log (tool ∷ tools) = i.parse_failures log tool ++ all_spans i log tools

unfoldable pub compute_fingerprints : TestFixLoopInput → String → GateResult → List String
compute_fingerprints i log gate =
    let tools =
      map (λ (r : AdapterRunResult). r.name)
        (select (λ (r : AdapterRunResult). not r.passed) (Dict.values gate.adapters)) in
    unique [] (map (fingerprint i.sha256_hex) (all_spans i log tools))

abbrev pub count : String → Seen → ℕ
count fp seen = or_else (Dict.get fp seen) 0

-- `for (const fp of fingerprints) seen.set(fp, (seen.get(fp) ?? 0) + 1)`.
unfoldable pub mark : List String → Seen → Seen
mark [] seen = seen
mark (fp ∷ fps) seen = mark fps (Dict.set fp (suc (count fp seen)) seen)

abbrev pub fix_body : TestFixLoopInput → ℕ → String → String → String → List String → Json
fix_body i round log debug fix fps = obj (
    field "kind" (str "fix_result") (
      field "round" (num round) (
        field "headSha" (str i.head_sha) (
          field "baseSha" (str i.base_sha) (
            field "repo" (str i.repo) (
              field "wrappedFailureLog" (str log) (
                field "debuggerOutput" (str debug)
                  (field "fixOutput" (str fix) (field "fingerprints" (arr (texts fps)) end)))))))))

unfoldable pub persist_fix_artifact :
    TestFixLoopInput → ℕ → String → String → String → List String → Store → String × Store
persist_fix_artifact i round log debug fix fps store =
    let content = stable_json_stringify (fix_body i round log debug fix fps) in
    let key = compute_artifact_key i.sha256_hex content in
    (
      key,
      write
          (record {
            kind = raw_payload;
            key = key;
            content = content;
            repo = i.repo;
            run_id = i.run_id;
            created_at = i.now round;
          })
          store,
    )

unfoldable pub synthetic_pass_round : TestFixLoopInput → ℕ → GateResult → RoundRecord
synthetic_pass_round i round gate = record {
  round = round;
  gate = gate;
  test_result_ref = gate.log_artifact_ref;
  fix_result_ref =
      compute_artifact_key i.sha256_hex ("pass:" <> show round <> ":" <> gate.binding_hash);
  fingerprints = [];
}

-- What a round leads to.
pub data Step : Type 0 where
  passed : RoundRecord → Step
  stuck : RoundRecord → Store → Step
  next : RoundRecord → Seen → Store → Step

abbrev pub limit : TestFixLoopInput → ℕ
limit i = or_else i.fingerprint_limit same_fingerprint_limit

abbrev failed_round : ℕ → GateResult → List String → String → RoundRecord
failed_round round gate fps fix_ref = record {
  round = round;
  gate = gate;
  test_result_ref = gate.log_artifact_ref;
  fix_result_ref = fix_ref;
  fingerprints = fps;
}

-- After the fingerprints of a failed round are marked: it stops the loop when one has been seen too
-- often, and the agents run otherwise.
unfoldable pub dispatch :
    TestFixLoopInput → ℕ → String → List String → Seen → Store → Option String → Step
dispatch i round log fps marked store (some fp) =
    let wrapped = i.wrap_untrusted log in
    let out = persist_fix_artifact i round wrapped "" "" fps store in
    stuck (failed_round round (i.gate round) fps out.0) out.1
dispatch i round log fps marked store none =
    let wrapped = i.wrap_untrusted log in
    let debug = i.debugger round wrapped in
    let fix = i.fix round wrapped debug in
    let out = persist_fix_artifact i round wrapped debug fix fps store in
    next (failed_round round (i.gate round) fps out.0) marked out.1

-- A round whose gate has failed.
unfoldable pub fail_round : TestFixLoopInput → ℕ → Seen → Store → Step
fail_round i round seen store =
    let log = render_failure_log (i.gate round) in
    let fps = compute_fingerprints i log (i.gate round) in
    let marked = mark fps seen in
    dispatch i round log fps marked store (find (λ fp. leb (limit i) (count fp marked)) fps)

unfoldable pub do_round : TestFixLoopInput → ℕ → Seen → Store → Step
do_round i round seen store =
    if (i.gate round).passed
    then passed (synthetic_pass_round i round (i.gate round))
    else fail_round i round seen store

abbrev pub last_gate_of : List RoundRecord → Option GateResult
last_gate_of [] = none
last_gate_of (r ∷ []) = some r.gate
last_gate_of (r ∷ rs) = last_gate_of rs

-- Ends the loop, or goes on with it.
unfoldable pub follow :
    List RoundRecord
    → Store
    → (RoundRecord → Seen → Store → TestFixLoopResult × Store)
    → Step
    → TestFixLoopResult × Store
follow rounds store go_on (passed r) =
    (record { final_state = fixed; rounds = rounds ++ r ∷ []; last_gate = some r.gate }, store)
follow rounds store go_on (stuck r kept) =
    (record { final_state = blocked; rounds = rounds ++ r ∷ []; last_gate = some r.gate }, kept)
follow rounds store go_on (next r marked kept) = go_on r marked kept

-- The loop from `round` on, with `left` rounds to go.
unfoldable pub run_from :
    TestFixLoopInput
    → (left round : ℕ) → Seen
    → List RoundRecord
    → Store
    → TestFixLoopResult × Store
run_from i zero round seen rounds store =
    (record { final_state = give_up; rounds = rounds; last_gate = last_gate_of rounds }, store)
run_from i (suc left) round seen rounds store =
    follow rounds store
      (λ r marked kept. run_from i left (suc round) marked (rounds ++ r ∷ []) kept)
      (do_round i round seen store)

abbrev pub bound : TestFixLoopInput → ℕ
bound i = or_else i.max max_rounds

-- `TestFixLoopController.run`.
unfoldable pub run : TestFixLoopInput → Store → TestFixLoopResult × Store
run i store = run_from i (bound i) 1 [] [] store
