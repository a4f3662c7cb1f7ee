-- ===== src/Artifacts/Retention.antt =====
-- packages/artifacts/src/retention-scheduler.ts: which artifacts have expired. Ages are milliseconds
-- in place of fractions of days; `parse` reads a time, and every tier has its days.
use github_auto_dev.Base.{
  ℕ, ◌+◌, ◌-◌, ◌*◌, ◌≤◌, ltb, ◌≡◌, refl, String, List, [], ◌∷◌, or_else, length, if◌then◌else◌,
  arith,
}
use github_auto_dev.Base.Dict
use github_auto_dev.Artifacts.{Artifact}
use github_auto_dev.Artifacts.Access.{
  AccessTier, public_summary, internal_log, security_sensitive, audit_restricted,
}

-- `DEFAULT_RETENTION_POLICY`.
abbrev pub default_retention_days : AccessTier → ℕ
default_retention_days public_summary = 90
default_retention_days internal_log = 180
default_retention_days security_sensitive = 365
default_retention_days audit_restricted = 2555

pub record ExpiredArtifact : Type 0 where
  pub key : String
  pub repo : String
  pub tier : AccessTier
  pub created_at : String
  pub age_ms : ℕ

-- What the sink is told.
pub record ExpiryEvent : Type 0 where
  pub key : String
  pub repo : String
  pub tier : AccessTier
  pub age_ms : ℕ
  pub retention_days : ℕ

pub record RetentionTickResult : Type 0 where
  pub expired : List ExpiredArtifact
  pub retained : ℕ

abbrev day_ms : ℕ
day_ms = 86400000

module _ (parse : String → ℕ) (retention_days : AccessTier → ℕ) (tiers : List (String × AccessTier))
    (now : ℕ) where
  abbrev tier_at : Artifact → AccessTier
  tier_at a = or_else (Dict.get a.key tiers) internal_log

  -- `Math.max(0, now - createdAt)`.
  abbrev age : Artifact → ℕ
  age a = now - parse a.created_at

  abbrev found : Artifact → ExpiredArtifact
  found a = record {
    key = a.key;
    repo = a.repo;
    tier = tier_at a;
    created_at = a.created_at;
    age_ms = age a;
  }

  abbrev told : Artifact → ExpiryEvent
  told a = record {
    key = a.key;
    repo = a.repo;
    tier = tier_at a;
    age_ms = age a;
    retention_days = retention_days (tier_at a);
  }

  -- The loop over the artifacts.
  abbrev sweep : List Artifact → List ExpiredArtifact × List ExpiryEvent
  sweep [] = ([], [])
  sweep (a ∷ artifacts) =
      let rest = sweep artifacts in
      if ltb (retention_days (tier_at a) * day_ms) (age a)
      then (found a ∷ rest.0, told a ∷ rest.1)
      else rest

  -- `RetentionScheduler.tick`, with the events that the sink is told.
  unfoldable pub tick : List Artifact → RetentionTickResult × List ExpiryEvent
  unfolding Dict.get
  tick artifacts =
      let s = sweep artifacts in
      (record { expired = s.0; retained = length artifacts - length s.0 }, s.1)

  sweep-bounded :
      (artifacts : List Artifact)
      → (length (sweep artifacts).0 ≤ length artifacts)
        × (length (sweep artifacts).1 ≡ length (sweep artifacts).0)
  sweep-bounded [] = (omega arith, refl)
  sweep-bounded (a ∷ artifacts) = let more = sweep-bounded artifacts in (ground arith, ground arith)

  -- Every artifact is either retained or expired, and each that has expired is told once.
  tick-Partition :
      (artifacts : List Artifact)
      → (length (tick artifacts).0.expired + (tick artifacts).0.retained ≡ length artifacts)
        × (length (tick artifacts).1 ≡ length (tick artifacts).0.expired)
  unfolding tick
  tick-Partition artifacts = let b = sweep-bounded artifacts in (omega (arith, b.0), b.1)
