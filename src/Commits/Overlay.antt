-- ===== src/Commits/Overlay.antt =====
-- sandbox/write-overlay.ts: the writes of an agent, each of which goes through the policy.
use github_auto_dev.Base.{
  String, none, Bool, true, false, List, [], ◌∷◌, ◌++◌, if◌then◌else◌, is_empty,
}
use github_auto_dev.Base.Dict
use github_auto_dev.Commits.Paths.{PathWritePolicy, Denial, normalize_path, relative_to, is_allowed}

pub record OverlayEntry : Type 0 where
  pub path : String
  pub contents : String
  pub deleted : Bool

pub record DeniedWrite : Type 0 where
  pub path : String
  pub reasons : List Denial

-- The overlay, with its workspace root as the constructor normalizes it.
pub record WriteOverlay : Type 0 where
  pub policy : PathWritePolicy
  pub workspace_root : String
  pub entries : List (String × OverlayEntry)
  pub denied : List DeniedWrite

abbrev pub new_overlay : PathWritePolicy → String → WriteOverlay
new_overlay policy root = record {
  policy = policy;
  workspace_root = normalize_path root;
  entries = [];
  denied = [];
}

-- `toRelative`.
abbrev pub to_relative : WriteOverlay → String → String
to_relative o path = relative_to o.workspace_root (normalize_path path)

-- A write or a deletion: the entry that it records, or the denial.
abbrev put_entry : String → String → Bool → WriteOverlay → List Denial × WriteOverlay
put_entry path contents deleted o =
    let reasons = is_allowed o.policy path none in
    let rel = to_relative o path in
    let entry : OverlayEntry = record { path = rel; contents = contents; deleted = deleted } in
    let denial : DeniedWrite = record { path = path; reasons = reasons } in
    if is_empty reasons
    then (
      reasons,
      record {
        policy = o.policy;
        workspace_root = o.workspace_root;
        entries = Dict.set rel entry o.entries;
        denied = o.denied;
      },
    )
    else (
      reasons,
      record {
        policy = o.policy;
        workspace_root = o.workspace_root;
        entries = o.entries;
        denied = o.denied ++ denial ∷ [];
      },
    )

unfoldable pub write : String → String → WriteOverlay → List Denial × WriteOverlay
unfolding is_allowed normalize_path Dict.set
write path contents o = put_entry path contents false o

unfoldable pub delete : String → WriteOverlay → List Denial × WriteOverlay
unfolding is_allowed normalize_path Dict.set
delete path o = put_entry path "" true o
