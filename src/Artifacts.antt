-- ===== src/Artifacts.antt =====
-- packages/artifacts/src: content-addressed artifacts (index.ts and InMemoryArtifactStore of
-- store.ts). SHA-256 is a parameter.
pub mod Store
pub mod Access
pub mod Retention
use github_auto_dev.Base.{
  ℕ, length, String, str_eq, opt_eq, Option, none, some, List, [], ◌∷◌, Bool, true, false, ◌&&◌,
  select, if◌then◌else◌,
}
use github_auto_dev.Base.Dict
use github_auto_dev.Base.Text.{◌<>◌}

pub data ArtifactKind : Type 0 where
  spec plan review raw_payload implementation_note : ArtifactKind

pub record Artifact : Type 0 where
  pub kind : ArtifactKind
  pub key : String
  pub content : String
  pub repo : String
  pub run_id : Option String
  pub created_at : String

abbrev pub Store : Type 0
Store = List (String × Artifact)

-- `computeArtifactKey`.
unfoldable pub compute_artifact_key : (String → String) → String → String
compute_artifact_key sha256_hex content = "sha256:" <> sha256_hex content

unfoldable pub write : Artifact → Store → Store
write a store = Dict.set a.key a store

unfoldable pub read : String → Store → Option Artifact
read key store = Dict.get key store

-- The filter of `list`; an absent field is `none`.
pub record ListFilter : Type 0 where
  pub repo : String
  pub run_id : Option String
  pub kind : Option ArtifactKind

abbrev pub run_fits : Option String → Option String → Bool
run_fits none actual = true
run_fits (some run) actual = opt_eq actual (some run)

-- `artifact.kind === filter.kind`.
abbrev pub same_kind : ArtifactKind → ArtifactKind → Bool
same_kind spec spec = true
same_kind plan plan = true
same_kind review review = true
same_kind raw_payload raw_payload = true
same_kind implementation_note implementation_note = true
same_kind _ _ = false

abbrev pub kind_fits : Option ArtifactKind → ArtifactKind → Bool
kind_fits none actual = true
kind_fits (some kind) actual = same_kind actual kind

unfoldable pub list : ListFilter → Store → List Artifact
list filter store =
    select
      (λ a.
        str_eq a.repo filter.repo
        && (run_fits filter.run_id a.run_id && kind_fits filter.kind a.kind))
      (Dict.values store)

unfoldable pub size : Store → ℕ
size store = length store
