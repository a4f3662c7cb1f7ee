-- ===== src/Examples/Gate.antt =====
-- The test-fix loop, the verifier and the artifact store on concrete inputs.
use github_auto_dev.Base.{
  ℕ, ltb, ◌≡◌, refl, none, some, [], ◌∷◌, Bool, true, not, if◌then◌else◌, map,
}
use github_auto_dev.Base.Dict
use github_auto_dev.Base.Sort
use github_auto_dev.Base.Text.{◌<>◌, join, show, text_lt}
use github_auto_dev.Schemas.StableJson.{stable_json_stringify, quote}
use github_auto_dev.Base.{find, select}
use github_auto_dev.Artifacts.{Artifact, raw_payload, read, write, compute_artifact_key}
use github_auto_dev.Gate.{GateResult, AdapterRunResult}
use github_auto_dev.Gate.Fingerprint.{fingerprint, normalize_file_path}
use github_auto_dev.Gate.TestFix.{
  TestFixLoopInput, fixed, blocked, run, run_from, follow, do_round, fail_round, dispatch,
  compute_fingerprints, unique, mark, persist_fix_artifact, render_failure_log,
  synthetic_pass_round,
}
use github_auto_dev.Gate.TestFix.Outcome.{EndedBy, run-Ended}
use github_auto_dev.Gate.Verifier.{review, VerifierInput, bundle_body, verify}
use github_auto_dev.Gate.Verifier.Completeness.{verify-complete, record_name, criterion_name}

abbrev lint : Bool → AdapterRunResult
lint ok = record {
  name = "lint";
  command = "lint";
  exit_code = if ok then 0 else 1;
  stdout = "out";
  stderr = "";
  duration_ms = 5;
  passed = ok;
}

-- The gate fails before the round `good`.
abbrev gate_at : ℕ → ℕ → GateResult
gate_at good n = record {
  head_sha = "h";
  base_sha = "b";
  repo = "r";
  passed = not (ltb n good);
  adapters = ("lint", lint (not (ltb n good))) ∷ [];
  binding_hash = "bh";
  log_artifact_ref = "log";
}

abbrev loop_input : ℕ → TestFixLoopInput
loop_input good = record {
  head_sha = "h";
  base_sha = "b";
  repo = "r";
  run_id = none;
  max = none;
  fingerprint_limit = none;
  gate = gate_at good;
  parse_failures = λ log tool.
      record {
        tool = tool;
        file_path = some "./a.ts:3";
        line = none;
        rule = none;
        message_template = "m";
      }
      ∷ [];
  wrap_untrusted = λ s. "<" <> s <> ">";
  debugger = λ n s. "d";
  fix = λ n s d. "f";
  now = λ n. "t";
  sha256_hex = λ s. s;
}

third_fixed : (run (loop_input 3) []).0.final_state ≡ fixed
unfolding run run_from follow do_round fail_round dispatch find compute_fingerprints unique select
    Dict.values Dict.get mark Dict.set fingerprint stable_json_stringify join Sort.sort Sort.insert
    compute_artifact_key write show text_lt normalize_file_path persist_fix_artifact
    render_failure_log synthetic_pass_round quote
third_fixed = refl

same_failure_blocked : (run (loop_input 9) []).0.final_state ≡ blocked
unfolding run run_from follow do_round fail_round dispatch find compute_fingerprints unique select
    Dict.values Dict.get mark Dict.set fingerprint stable_json_stringify join Sort.sort Sort.insert
    compute_artifact_key write show text_lt normalize_file_path persist_fix_artifact
    render_failure_log synthetic_pass_round quote
same_failure_blocked = refl

path_normalized : normalize_file_path (some ".\\a\\b.ts:12:3") ≡ some "a/b.ts"
unfolding normalize_file_path
path_normalized = refl

run-Ended_example : EndedBy (loop_input 3) (run (loop_input 3) []).0
run-Ended_example = run-Ended (loop_input 3) []

-- A review criterion without a review.
abbrev bare : VerifierInput
bare = record {
  plan_id = "p";
  head_sha = "h";
  base_sha = "b";
  repo = "r";
  run_id = none;
  criteria = record { id = "c1"; description = ""; kind = review } ∷ [];
  sources = record { gate = none; review = none; manual_notes = [] };
  now = "t";
}

verify-complete_example :
    (◌≡◌ (map record_name (verify (λ s. s) bare []).0.evidence) (map criterion_name bare.criteria))
    × ((a : Artifact) × (read
            (verify (λ s. s) bare []).0.evidence_artifact_ref
            (verify (λ s. s) bare []).1
          ≡ some a)
        × (a.content ≡ bundle_body (λ s. s) bare (verify (λ s. s) bare []).0.evidence true)
        × ((verify (λ s. s) bare []).0.evidence_artifact_ref
            ≡ compute_artifact_key (λ s. s) a.content)
        × (a.kind ≡ raw_payload)
        × (a.repo ≡ bare.repo)
        × (a.run_id ≡ bare.run_id))
    × ((verify (λ s. s) bare []).0.complete ≡ true)
verify-complete_example = verify-complete (λ s. s) bare []
