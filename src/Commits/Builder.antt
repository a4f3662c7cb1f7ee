-- ===== src/Commits/Builder.antt =====
-- commits/commit-builder.ts: a patch becomes a commit, or is turned down with an entry in the audit
-- chain. Git is a state `G` behind its port, whose calls succeed.
pub mod Landing
use github_auto_dev.Base.{
  String, Option, some, Bool, true, false, List, [], ◌∷◌, map, if◌then◌else◌, select, is_empty,
}
use github_auto_dev.Base.Text.{◌<>◌}
use github_auto_dev.Schemas.StableJson.{Json, Items, Fields, str, arr, obj, field, end, nil, cons}
use github_auto_dev.Audit.Chain.{ChainState, AppendInput, append}
use github_auto_dev.Commits.Paths.{is_protected}
use github_auto_dev.Commits.Overlay.{OverlayEntry}
use github_auto_dev.Commits.Patch.{
  Fault, file_not_allowed, file_forbidden, deletes_protected, ApplyInput, ApplyResult,
  apply_to_clean_checkout,
}
use github_auto_dev.Commits.Message.{
  CommitMessageInput, CommitMessageError, Rendered, rendered, refused, render_commit_message,
}

pub record WorkerResultPatch : Type 0 where
  pub base_sha : String
  pub entries : List OverlayEntry
  pub allowed_paths : List String
  pub forbidden_paths : List String

pub record BuildCommitInput : Type 0 where
  pub run_id : String
  pub branch_name : String
  pub patch : WorkerResultPatch
  pub message : CommitMessageInput
  pub base : List (String × String)

pub data BuildCommitResult : Type 0 where
  committed : (commit_sha : String) → (changed_files : List String) → BuildCommitResult
  aborted : (changed_files : List String) → (reasons : List String) → BuildCommitResult
  thrown : (error : CommitMessageError) → BuildCommitResult

-- `writeCommit`: what a commit is asked for with, and what the port answers.
pub record CommitArgs : Type 0 where
  pub branch_name : String
  pub base_sha : String
  pub tree : List (String × String)
  pub commit_message : String

pub record Written : Type 0 where
  pub commit_sha : String
  pub changed_files : List String

pub record Repo {ℓ} (G : Type ℓ) : Type ℓ where
  pub git : G
  pub chain : ChainState

abbrev fault_text : Fault → String
fault_text (file_not_allowed f) = "file not in allowedPaths: " <> f
fault_text (file_forbidden f) = "file matches forbidden path: " <> f
fault_text (deletes_protected f) = "deleting protected file: " <> f

abbrev touched_text : String → String
touched_text p = "protected file touched: " <> p

abbrev items : List String → Items
items [] = nil
items (x ∷ xs) = cons (str x) (items xs)

-- What the applier makes of the patch.
abbrev pub applied_to_base : List String → BuildCommitInput → ApplyResult
applied_to_base detector i = apply_to_clean_checkout (record {
  base_sha = i.patch.base_sha;
  entries = i.patch.entries;
  base = i.base;
  allowed_paths = i.patch.allowed_paths;
  forbidden_paths = i.patch.forbidden_paths;
  detector = some detector;
})

module _ {ℓ} {G : Type ℓ} (sha256_hex : String → String) (stamp : ChainState → String × String)
    (write_commit : CommitArgs → G → Written × G) (detector : List String) where
  abbrev audit_of : BuildCommitInput → String → Fields → Repo G → Repo G
  audit_of i kind more w =
      let entry : AppendInput = record {
        run_id = some i.run_id;
        kind = kind;
        payload =
            obj (
              field "branchName" (str i.branch_name) (field "baseSha" (str i.patch.base_sha) more));
        id = (stamp w.chain).0;
        created_at = (stamp w.chain).1;
      } in
      record { git = w.git; chain = (append sha256_hex entry w.chain).1 }

  abbrev pub abort :
      BuildCommitInput → List String → List String → Fields → Repo G → BuildCommitResult × Repo G
  abort i changed reasons more w =
      let payload =
        field "reasons" (arr (items reasons)) (field "changedFiles" (arr (items changed)) more) in
      (aborted changed reasons, audit_of i "PROTECTED_FILE_VIOLATION" payload w)

  -- The third step and those after it.
  abbrev pub land :
      BuildCommitInput → List (String × String) → Rendered → Repo G → BuildCommitResult × Repo G
  land i tree (refused e) w = (thrown e, w)
  land i tree (rendered text) w =
      let (written, git) =
        write_commit
          (record {
            branch_name = i.branch_name;
            base_sha = i.patch.base_sha;
            tree = tree;
            commit_message = text;
          })
          w.git in
      let payload =
        field "commitSha" (str written.commit_sha)
          (field "changedFiles" (arr (items written.changed_files)) end) in
      (
        committed written.commit_sha written.changed_files,
        audit_of i "commit.create" payload (record { git = git; chain = w.chain }),
      )

  -- `CommitBuilder.build`.
  unfoldable pub build : BuildCommitInput → Repo G → BuildCommitResult × Repo G
  unfolding apply_to_clean_checkout is_protected select append render_commit_message
  build i w =
      let applied = applied_to_base detector i in
      let touched = select (is_protected detector) applied.changed_files in
      let rejected = abort i applied.changed_files (map fault_text applied.reasons) end w in
      let swept =
        abort i applied.changed_files (map touched_text touched)
          (field "protectedTouched" (arr (items touched)) end) w in
      let landed = land i applied.result (render_commit_message i.message) w in
      if applied.applied then if is_empty touched then landed else swept else rejected
