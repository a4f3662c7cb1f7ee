-- ===== src/Gate/Verifier.antt =====
-- apps/runner-broker/src/gate/verifier-runner.ts, with the types of acceptance-evidence.ts. SHA-256
-- is a parameter.
pub mod Completeness
use github_auto_dev.Base.{
  ℕ, String, Option, none, some, List, [], ◌∷◌, map, Bool, true, false, ◌||◌, has, if◌then◌else◌,
  all,
}
use github_auto_dev.Base.Dict
use github_auto_dev.Schemas.StableJson.{
  Json, bool, str, arr, Items, nil, cons, obj, field, end, Fields, stable_json_stringify,
}
use github_auto_dev.Artifacts.{Artifact, Store, raw_payload, compute_artifact_key, write}

pub data AcceptanceEvidenceKind : Type 0 where
  test review manual : AcceptanceEvidenceKind

pub record AcceptanceCriterion : Type 0 where
  pub id : String
  pub description : String
  pub kind : AcceptanceEvidenceKind

pub record Evidence : Type 0 where
  pub log_ref : Option String
  pub finding_ref : Option String
  pub note : Option String

pub record CriterionEvidence : Type 0 where
  pub criterion_id : String
  pub kind : AcceptanceEvidenceKind
  pub evidence : Evidence
  pub binding_hash : String

pub record GateSnapshot : Type 0 where
  pub passed : Bool
  pub log_artifact_ref : String

pub record ReviewSnapshot : Type 0 where
  pub finding_ref : String
  pub satisfied_criteria : List String

pub record Sources : Type 0 where
  pub gate : Option GateSnapshot
  pub review : Option ReviewSnapshot
  pub manual_notes : List (String × String)

pub record VerifierInput : Type 0 where
  pub plan_id : String
  pub head_sha : String
  pub base_sha : String
  pub repo : String
  pub run_id : Option String
  pub criteria : List AcceptanceCriterion
  pub sources : Sources
  pub now : String

pub record VerifierResult : Type 0 where
  pub plan_id : String
  pub evidence : List CriterionEvidence
  pub complete : Bool
  pub binding_hash : String
  pub evidence_artifact_ref : String

abbrev only_note : String → Evidence
only_note s = record { log_ref = none; finding_ref = none; note = some s }

-- Test evidence is the gate's log, whether or not the gate passed.
abbrev pub test_evidence : Option GateSnapshot → Evidence
test_evidence none = only_note "no gate result available"
test_evidence (some g) = record {
  log_ref = some g.log_artifact_ref;
  finding_ref = none;
  note = none;
}

abbrev pub review_evidence : String → Option ReviewSnapshot → Evidence
review_evidence id none = only_note "no review available"
review_evidence id (some r) =
    if has r.satisfied_criteria id
    then record { log_ref = none; finding_ref = some r.finding_ref; note = none }
    else only_note "review did not mark criterion satisfied"

abbrev pub manual_evidence : Option String → Evidence
manual_evidence none = only_note "no manual note provided"
manual_evidence (some note) = only_note note

unfoldable pub gather : AcceptanceEvidenceKind → String → Sources → Evidence
gather test id sources = test_evidence sources.gate
gather review id sources = review_evidence id sources.review
gather manual id sources = manual_evidence (Dict.get id sources.manual_notes)

abbrev kind_name : AcceptanceEvidenceKind → String
kind_name test = "test"
kind_name review = "review"
kind_name manual = "manual"

abbrev opt_field : String → Option String → Fields → Fields
opt_field key none rest = rest
opt_field key (some s) rest = field key (str s) rest

abbrev evidence_json : Evidence → Json
evidence_json e = obj (
    opt_field "logRef" e.log_ref
      (opt_field "findingRef" e.finding_ref (opt_field "note" e.note end)))

abbrev record_json : CriterionEvidence → Json
record_json e = obj (
    field "criterionId" (str e.criterion_id) (
      field "kind" (str (kind_name e.kind)) (
        field "evidence" (evidence_json e.evidence)
          (field "bindingHash" (str e.binding_hash) end))))

abbrev records_json : List CriterionEvidence → Items
records_json [] = nil
records_json (e ∷ es) = cons (record_json e) (records_json es)

-- `e.evidence.logRef !== undefined || ...`.
abbrev present : Option String → Bool
present none = false
present (some s) = true

abbrev pub has_evidence : CriterionEvidence → Bool
has_evidence e =
    present e.evidence.log_ref || (present e.evidence.finding_ref || present e.evidence.note)

module _ (sha256_hex : String → String) where
  unfoldable pub collect : Sources → AcceptanceCriterion → CriterionEvidence
  collect sources c =
      let evidence = gather c.kind c.id sources in
      record {
        criterion_id = c.id;
        kind = c.kind;
        evidence = evidence;
        binding_hash = compute_artifact_key sha256_hex (
            stable_json_stringify (
              obj (
                field "criterionId" (str c.id) (
                  field "kind" (str (kind_name c.kind))
                    (field "evidence" (evidence_json evidence) end)))));
      }

  abbrev bundle_hash : VerifierInput → List CriterionEvidence → String
  bundle_hash i evidence = compute_artifact_key sha256_hex (
      stable_json_stringify (
        obj (
          field "planId" (str i.plan_id) (
            field "headSha" (str i.head_sha) (
              field "baseSha" (str i.base_sha)
                (field "evidence" (arr (records_json evidence)) end))))))

  abbrev pub bundle_body : VerifierInput → List CriterionEvidence → Bool → String
  bundle_body i evidence complete = stable_json_stringify (
      obj (
        field "kind" (str "verifier_evidence_bundle") (
          field "planId" (str i.plan_id) (
            field "headSha" (str i.head_sha) (
              field "baseSha" (str i.base_sha) (
                field "repo" (str i.repo) (
                  field "evidence" (arr (records_json evidence)) (
                    field "complete" (bool complete)
                      (field "bindingHash" (str (bundle_hash i evidence)) end)))))))))

  -- `VerifierRunner.run`, with its `persist`.
  unfoldable pub verify : VerifierInput → Store → VerifierResult × Store
  verify i store =
      let evidence = map (collect i.sources) i.criteria in
      let complete = all has_evidence evidence in
      let body = bundle_body i evidence complete in
      let key = compute_artifact_key sha256_hex body in
      (
        record {
          plan_id = i.plan_id;
          evidence = evidence;
          complete = complete;
          binding_hash = bundle_hash i evidence;
          evidence_artifact_ref = key;
        },
        write
            (record {
              kind = raw_payload;
              key = key;
              content = body;
              repo = i.repo;
              run_id = i.run_id;
              created_at = i.now;
            })
            store,
      )
