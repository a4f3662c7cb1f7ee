-- ===== src/Gate/Verifier/Completeness.antt =====
-- What the verifier's records and its `complete` flag say.
use github_auto_dev.Base.{
  String, ◌≡◌, refl, Option, none, some, List, [], ◌∷◌, true, all, map, has, Bool-cases, inl, inr,
  ap,
}
use github_auto_dev.Base.Dict
use github_auto_dev.Artifacts.{Artifact, Store, raw_payload, read, compute_artifact_key}
use github_auto_dev.Artifacts.Store.{write-read}
use github_auto_dev.Gate.Verifier.{
  AcceptanceCriterion, AcceptanceEvidenceKind, test, review, manual, CriterionEvidence,
  GateSnapshot, ReviewSnapshot, Sources, VerifierInput, has_evidence, test_evidence,
  review_evidence, manual_evidence, gather, collect, bundle_body, verify,
}

-- The sources of a criterion's references.
abbrev pub IsLog : AcceptanceEvidenceKind → Sources → String → Type 0
IsLog kind sources ref =
    (kind ≡ test) × ((g : GateSnapshot) × (sources.gate ≡ some g) × (ref ≡ g.log_artifact_ref))

abbrev pub IsFinding : AcceptanceEvidenceKind → String → Sources → String → Type 0
IsFinding kind id sources ref =
    (kind ≡ review)
    × ((r : ReviewSnapshot) × (sources.review ≡ some r)
        × (has r.satisfied_criteria id ≡ true)
        × (ref ≡ r.finding_ref))

test_log :
    (o : Option GateSnapshot) (ref : String)
    → (test_evidence o).log_ref ≡ some ref
    → (g : GateSnapshot) × (o ≡ some g) × (ref ≡ g.log_artifact_ref)
test_log none ref h = cc
test_log (some g) ref h = (g, refl, cc)

review_bare : (id : String) (o : Option ReviewSnapshot) → (review_evidence id o).log_ref ≡ none
review_bare id none = refl
review_bare id (some r) = elim (Bool-cases (has r.satisfied_criteria id)) [
  | inl t ↦ rw t refl
  | inr f ↦ rw f refl
]

manual_bare :
    (o : Option String)
    → ((manual_evidence o).log_ref ≡ none) × ((manual_evidence o).finding_ref ≡ none)
manual_bare none = (refl, refl)
manual_bare (some s) = (refl, refl)

test_bare : (o : Option GateSnapshot) → (test_evidence o).finding_ref ≡ none
test_bare none = refl
test_bare (some g) = refl

review_finding :
    (id : String) (o : Option ReviewSnapshot) (ref : String)
    → (review_evidence id o).finding_ref ≡ some ref
    → (r : ReviewSnapshot) × (o ≡ some r)
      × (has r.satisfied_criteria id ≡ true)
      × (ref ≡ r.finding_ref)
review_finding id none ref h = cc
review_finding id (some r) ref h = elim (Bool-cases (has r.satisfied_criteria id)) [
  | inl t ↦ (r, refl, t, cc (rw t at h))
  | inr f ↦ cc (rw f at h)
]

-- A criterion's record cites a log only for a test criterion, and then that of the gate result, and
-- a finding only for a review criterion that the review marks as satisfied, and then the review's.
pub gather_sound :
    (kind : AcceptanceEvidenceKind) (id : String) (s : Sources) (ref : String)
    → ((gather kind id s).log_ref ≡ some ref → IsLog kind s ref)
      × ((gather kind id s).finding_ref ≡ some ref → IsFinding kind id s ref)
unfolding gather
gather_sound test id s ref = (λ h. (refl, test_log s.gate ref h), λ h. cc (h, test_bare s.gate))
gather_sound review id s ref =
    (λ h. cc (h, review_bare id s.review), λ h. (refl, review_finding id s.review ref h))
gather_sound manual id s ref =
    let (a, b) = manual_bare (Dict.get id s.manual_notes) in (λ h. cc (h, a), λ h. cc (h, b))

test_full :
    (o : Option GateSnapshot) (id : String) (hash : String)
    → has_evidence
        (record { criterion_id = id; kind = test; evidence = test_evidence o; binding_hash = hash })
      ≡ true
test_full none id hash = refl
test_full (some g) id hash = refl

review_full :
    (o : Option ReviewSnapshot) (id : String) (hash : String)
    → has_evidence (record {
      criterion_id = id;
      kind = review;
      evidence = review_evidence id o;
      binding_hash = hash;
    })
      ≡ true
review_full none id hash = refl
review_full (some r) id hash = elim (Bool-cases (has r.satisfied_criteria id)) [
  | inl t ↦ rw t refl
  | inr f ↦ rw f refl
]

manual_full :
    (o : Option String) (id : String) (hash : String)
    → has_evidence (record {
      criterion_id = id;
      kind = manual;
      evidence = manual_evidence o;
      binding_hash = hash;
    })
      ≡ true
manual_full none id hash = refl
manual_full (some s) id hash = refl

gather_full :
    (kind : AcceptanceEvidenceKind) (s : Sources) (id : String) (hash : String)
    → has_evidence (record {
      criterion_id = id;
      kind = kind;
      evidence = gather kind id s;
      binding_hash = hash;
    })
      ≡ true
unfolding gather
gather_full test s id hash = test_full s.gate id hash
gather_full review s id hash = review_full s.review id hash
gather_full manual s id hash = manual_full (Dict.get id s.manual_notes) id hash

collect_full :
    (sha256_hex : String → String) (s : Sources) (c : AcceptanceCriterion)
    → has_evidence (collect sha256_hex s c) ≡ true
unfolding collect
collect_full sha256_hex s c = gather_full c.kind s c.id (collect sha256_hex s c).binding_hash

abbrev pub record_name : CriterionEvidence → String × AcceptanceEvidenceKind
record_name e = (e.criterion_id, e.kind)

abbrev pub criterion_name : AcceptanceCriterion → String × AcceptanceEvidenceKind
criterion_name c = (c.id, c.kind)

all_full :
    (sha256_hex : String → String) (s : Sources) (cs : List AcceptanceCriterion)
    → all has_evidence (map (collect sha256_hex s) cs) ≡ true
unfolding all
all_full sha256_hex s [] = refl
all_full sha256_hex s (c ∷ cs) = rw (collect_full sha256_hex s c) (all_full sha256_hex s cs)

ids :
    (sha256_hex : String → String) (s : Sources) (cs : List AcceptanceCriterion)
    → map record_name (map (collect sha256_hex s) cs) ≡ map criterion_name cs
unfolding collect
ids sha256_hex s [] = refl
ids sha256_hex s (c ∷ cs) = ap (λ xs. criterion_name c ∷ xs) (ids sha256_hex s cs)

-- The verifier's result has one record for each criterion of the plan, in the plan's order and of
-- its kind. Under its reference, which is the key of that content, lies a payload of the run with the
-- text of the bundle of these records, marked as complete. The result is always marked as complete,
-- whatever the sources lack, since the note that says what is lacking counts as evidence.
pub verify-complete :
    (sha256_hex : String → String) (i : VerifierInput) (store : Store)
    → (map record_name (verify sha256_hex i store).0.evidence ≡ map criterion_name i.criteria)
      × ((a : Artifact) × (read
              (verify sha256_hex i store).0.evidence_artifact_ref
              (verify sha256_hex i store).1
            ≡ some a)
          × (a.content ≡ bundle_body sha256_hex i (verify sha256_hex i store).0.evidence true)
          × ((verify sha256_hex i store).0.evidence_artifact_ref
              ≡ compute_artifact_key sha256_hex a.content)
          × (a.kind ≡ raw_payload)
          × (a.repo ≡ i.repo)
          × (a.run_id ≡ i.run_id))
      × ((verify sha256_hex i store).0.complete ≡ true)
unfolding verify
verify-complete sha256_hex i store =
    let full = all_full sha256_hex i.sources i.criteria in
    (
      ids sha256_hex i.sources i.criteria,
      (_, (write-read _ store "").0, rw full refl, refl, refl, refl, refl),
      full,
    )
