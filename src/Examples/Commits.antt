-- ===== src/Examples/Commits.antt =====
-- Patches that are committed and turned down, on git as the list of what was asked for.
use github_auto_dev.Base.{String, ◌≡◌, refl, ◌⊎◌, true, false, none, some, List, [], ◌∷◌}
use github_auto_dev.Base.Dict
use github_auto_dev.Audit.Chain.{ChainState}
use github_auto_dev.Commits.Paths.{
  protected_patterns, normalize_path, matches_any, is_protected, matched_patterns, is_allowed,
  PathWritePolicy, contains_traversal, forbidden,
}
use github_auto_dev.Commits.Overlay.{OverlayEntry, new_overlay, write, delete}
use github_auto_dev.Commits.Patch.{detect_dirty_workspace}
use github_auto_dev.Commits.Patch.Validation.{permits}
use github_auto_dev.Commits.Message.{CommitMessageError, refused, rendered, render_commit_message}
use github_auto_dev.Commits.Builder.{
  BuildCommitInput, thrown, aborted, CommitArgs, Written, Repo, build,
}
use github_auto_dev.Commits.Builder.Landing.{
  is_committed, is_aborted, is_clean, asked, built, build_lands, untouched,
}

normalized : normalize_path "/w/./src//a/../b.ts" ≡ "/w/src/b.ts"
unfolding normalize_path
normalized = refl

guarded : matched_patterns protected_patterns ".github/workflows/ci.yml" ≡ ".github/**" ∷ []
unfolding matched_patterns
guarded = refl

-- A path with a step upwards passes both tests, though it leads to a protected file.
passed : permits ("src/**" ∷ []) [] protected_patterns "src/../.github/workflows/ci.yml" ≡ true
unfolding permits matches_any is_protected
passed = refl

abbrev policy : PathWritePolicy
policy = record {
  workspace_root = "/w";
  allowed_paths = "src/**" ∷ [];
  forbidden_paths = "src/secret" ∷ [];
}

-- The overlay does refuse it.
denied :
    is_allowed policy "/w/src/../src/secret/key" none
    ≡ contains_traversal "/w/src/../src/secret/key" ∷ forbidden "src/secret" "src/secret/key" ∷ []
unfolding is_allowed
denied = refl

overlaid :
    (delete "/w/src/a.ts" (write "/w/src/a.ts" "x" (new_overlay policy "/w/")).1).1.entries
    ≡ ("src/a.ts", record { path = "src/a.ts"; contents = ""; deleted = true }) ∷ []
unfolding write delete
overlaid = refl

abbrev base : List (String × String)
base = ("package.json", "{}") ∷ ("src/a.ts", "1") ∷ ("src/b.ts", "2") ∷ []

clean_tree : detect_dirty_workspace (("src/a.ts", "9") ∷ base) base ("src/a.ts" ∷ []) ≡ false
unfolding detect_dirty_workspace
clean_tree = refl

abbrev edit : OverlayEntry
edit = record { path = "src/a.ts"; contents = "3"; deleted = false }

abbrev removal : OverlayEntry
removal = record { path = "src/b.ts"; contents = ""; deleted = true }

abbrev plan_sha : String
plan_sha = "0123456789abcdef0123456789abcdef0123456789abcdef0123456789abcdef"

abbrev input : List OverlayEntry → BuildCommitInput
input entries = record {
  run_id = "run";
  branch_name = "cgao/issue-7";
  patch = record {
    base_sha = "b1";
    entries = entries;
    allowed_paths = "src/**" ∷ "package.json" ∷ [];
    forbidden_paths = "src/secret/**" ∷ [];
  };
  message = record {
    summary = " fix the sum ";
    issue_number = 7;
    run_id = "run";
    spec_id = "s1";
    plan_id = "p1";
    plan_sha = plan_sha;
    body = some ("It was off by one." ∷ []);
  };
  base = base;
}

message_text :
    render_commit_message (input []).message
    ≡ rendered
        "fix the sum\n\nIt was off by one.\n\nRefs: issue #7, run-id run\nSpec-Id: s1\nPlan-Id: p1@0123456789abcdef0123456789abcdef0123456789abcdef0123456789abcdef"
unfolding render_commit_message
message_text = refl

abbrev hash : String → String
hash text = "00"

abbrev stamp : ChainState → String × String
stamp chain = ("id", "t0")

abbrev write_commit : CommitArgs → List CommitArgs → Written × List CommitArgs
write_commit a g = (record { commit_sha = "c1"; changed_files = "src/a.ts" ∷ [] }, a ∷ g)

abbrev repo : Repo (List CommitArgs)
repo = record { git = []; chain = record { records = []; tails = [] } }

abbrev change : BuildCommitInput
change = input (edit ∷ removal ∷ [])

-- An allowed change of a protected file is turned down.
turned_down :
    (build hash stamp write_commit protected_patterns
      (input (record { path = "package.json"; contents = "x"; deleted = false } ∷ []))
      repo).0
    ≡ aborted ("package.json" ∷ []) ("protected file touched: package.json" ∷ [])
unfolding build
turned_down = refl

build_lands_example :
    ((is_clean protected_patterns change ≡ false)
      × (is_aborted (built hash stamp write_commit protected_patterns change repo).0 ≡ true)
      × ((built hash stamp write_commit protected_patterns change repo).1.git ≡ []))
    ⊎ (((is_clean protected_patterns change ≡ true)
          × ((e : CommitMessageError) × (render_commit_message change.message ≡ refused e)
              × (built hash stamp write_commit protected_patterns change repo ≡ (thrown e, repo))))
        ⊎ ((is_clean protected_patterns change ≡ true)
            × ((text : String) × (render_commit_message change.message ≡ rendered text)
                × (is_committed (built hash stamp write_commit protected_patterns change repo).0
                    ≡ true)
                × ((built hash stamp write_commit protected_patterns change repo).1.git
                    ≡ asked change text ∷ []))))
build_lands_example = build_lands hash stamp write_commit protected_patterns change repo

untouched_example :
    (a : CommitArgs) × ((built hash stamp write_commit protected_patterns change repo).1.git
      ≡ a ∷ [])
    × (a.branch_name ≡ "cgao/issue-7")
    × (a.base_sha ≡ "b1")
    × (Dict.get "package.json" a.tree ≡ some "{}")
unfolding build permits Dict.get
untouched_example =
    untouched hash stamp write_commit protected_patterns change repo lands "package.json" kept
  where
    lands : is_committed (built hash stamp write_commit protected_patterns change repo).0 ≡ true
    lands = refl

    kept :
        permits change.patch.allowed_paths change.patch.forbidden_paths protected_patterns
          "package.json"
        ≡ false
    kept = refl
