-- ===== src/Gate.antt =====
-- apps/runner-broker/src/gate: the gate's results (types.ts) and the loops that read them.
pub mod Fingerprint
pub mod TestFix
pub mod Verifier
use github_auto_dev.Base.{ℕ, String, List, Bool}

pub record AdapterRunResult : Type 0 where
  pub name : String
  pub command : String
  pub exit_code : ℕ
  pub stdout : String
  pub stderr : String
  pub duration_ms : ℕ
  pub passed : Bool

-- The adapters' results stand in the order of the object's keys.
pub record GateResult : Type 0 where
  pub head_sha : String
  pub base_sha : String
  pub repo : String
  pub passed : Bool
  pub adapters : List (String × AdapterRunResult)
  pub binding_hash : String
  pub log_artifact_ref : String
