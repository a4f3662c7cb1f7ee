-- ===== src/Artifacts/Access.antt =====
-- packages/artifacts/src/access-policy.ts: who may read an artifact.
use github_auto_dev.Base.{ℕ, leb, ◌≡◌, true, Bool, String, arith}
use github_auto_dev.Artifacts.{
  Artifact, ArtifactKind, spec, plan, review, raw_payload, implementation_note,
}

pub data AccessTier : Type 0 where
  public_summary internal_log security_sensitive audit_restricted : AccessTier

pub record Principal : Type 0 where
  pub id : String
  pub clearance : AccessTier

pub record AccessDecision : Type 0 where
  pub allowed : Bool
  pub tier : AccessTier
  pub clearance : AccessTier

-- `TIER_RANK` and `tierRank`.
abbrev pub tier_rank : AccessTier → ℕ
tier_rank public_summary = 0
tier_rank internal_log = 1
tier_rank security_sensitive = 2
tier_rank audit_restricted = 3

-- `DEFAULT_CLASSIFIER`.
abbrev pub tier_of_kind : ArtifactKind → AccessTier
tier_of_kind spec = public_summary
tier_of_kind plan = public_summary
tier_of_kind review = public_summary
tier_of_kind implementation_note = internal_log
tier_of_kind raw_payload = security_sensitive

abbrev pub default_classifier : Artifact → AccessTier
default_classifier a = tier_of_kind a.kind

-- `ArtifactAccessPolicy.canRead`; the reason is the text of `allowed`.
unfoldable pub can_read : (Artifact → AccessTier) → Principal → Artifact → AccessDecision
can_read classifier p a = record {
  allowed = leb (tier_rank (classifier a)) (tier_rank p.clearance);
  tier = classifier a;
  clearance = p.clearance;
}

-- Who is cleared as high as another may read whatever the other may.
can_read_mono :
    (classifier : Artifact → AccessTier) (p q : Principal) (a : Artifact)
    → leb (tier_rank p.clearance) (tier_rank q.clearance) ≡ true
    → (can_read classifier p a).allowed ≡ true
    → (can_read classifier q a).allowed ≡ true
unfolding can_read
can_read_mono classifier p q a h r = ground arith
