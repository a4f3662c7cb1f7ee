-- ===== src/Commits/Patch.antt =====
-- sandbox/patch-validator.ts and clean-checkout-applier.ts of apps/runner-broker/src.
pub mod Validation
use github_auto_dev.Base.{
  String, Option, none, some, Bool, true, false, not, ◌||◌, List, [], ◌∷◌, ◌++◌, map, if◌then◌else◌,
  is_empty, str_eq, or_else, has, select,
}
use github_auto_dev.Base.Dict
use github_auto_dev.Base.Sets.{unique}
use github_auto_dev.Commits.Paths.{matches_any, is_protected}
use github_auto_dev.Commits.Overlay.{OverlayEntry}

pub data Fault : Type 0 where
  file_not_allowed : (file : String) → Fault
  file_forbidden : (file : String) → Fault
  deletes_protected : (file : String) → Fault

-- A detector is the list of its patterns.
pub record PatchValidationInput : Type 0 where
  pub changed_files : List String
  pub deleted_files : List String
  pub allowed_paths : List String
  pub forbidden_paths : List String
  pub detector : Option (List String)

abbrev pub file_faults : List String → List String → List String → List Fault
file_faults allowed banned [] = []
file_faults allowed banned (f ∷ fs) =
    (if matches_any f allowed then [] else file_not_allowed f ∷ [])
    ++ (if matches_any f banned then file_forbidden f ∷ [] else [])
    ++ file_faults allowed banned fs

abbrev pub deletion_faults : Option (List String) → List String → List Fault
deletion_faults none fs = []
deletion_faults (some patterns) [] = []
deletion_faults (some patterns) (f ∷ fs) =
    let rest = deletion_faults (some patterns) fs in
    if is_protected patterns f then deletes_protected f ∷ rest else rest

-- `validatePatch`: the reasons of a denial.
unfoldable pub validate_patch : PatchValidationInput → List Fault
unfolding matches_any is_protected
validate_patch i =
    file_faults i.allowed_paths i.forbidden_paths i.changed_files
    ++ deletion_faults i.detector i.deleted_files

pub record ApplyInput : Type 0 where
  pub base_sha : String
  pub entries : List OverlayEntry
  pub base : List (String × String)
  pub allowed_paths : List String
  pub forbidden_paths : List String
  pub detector : Option (List String)

pub record ApplyResult : Type 0 where
  pub applied : Bool
  pub reasons : List Fault
  pub result : List (String × String)
  pub changed_files : List String
  pub deleted_files : List String

abbrev pub path_of : OverlayEntry → String
path_of e = e.path

abbrev pub deleted_of : List OverlayEntry → List String
deleted_of [] = []
deleted_of (e ∷ es) = let rest = deleted_of es in if e.deleted then e.path ∷ rest else rest

-- The loop over the entries.
abbrev pub apply_all : List OverlayEntry → List (String × String) → List (String × String)
apply_all [] out = out
apply_all (e ∷ es) out =
    apply_all es (if e.deleted then Dict.remove e.path out else Dict.set e.path e.contents out)

-- `applyToCleanCheckout`.
unfoldable pub apply_to_clean_checkout : ApplyInput → ApplyResult
unfolding validate_patch Dict.remove Dict.set
apply_to_clean_checkout i =
    let deleted = deleted_of i.entries in
    let changed = map path_of i.entries in
    let reasons = validate_patch (record {
      changed_files = changed;
      deleted_files = deleted;
      allowed_paths = i.allowed_paths;
      forbidden_paths = i.forbidden_paths;
      detector = i.detector;
    }) in
    let rejected : ApplyResult = record {
      applied = false;
      reasons = reasons;
      result = i.base;
      changed_files = changed;
      deleted_files = deleted;
    } in
    let done : ApplyResult = record {
      applied = true;
      reasons = [];
      result = apply_all i.entries i.base;
      changed_files = changed;
      deleted_files = deleted;
    } in
    if is_empty reasons then done else rejected

abbrev keys_of : List (String × String) → List String
keys_of [] = []
keys_of ((k, v) ∷ m) = k ∷ keys_of m

abbrev dirty_in : List (String × String) → List (String × String) → List String → List String → Bool
dirty_in tree base touched [] = false
dirty_in tree base touched (k ∷ ks) =
    let rest = dirty_in tree base touched ks in
    if has touched k
    then rest
    else not (str_eq (or_else (Dict.get k tree) "") (or_else (Dict.get k base) "")) || rest

-- `detectDirtyWorkspace`.
unfoldable pub detect_dirty_workspace :
    List (String × String) → List (String × String) → List String → Bool
unfolding Dict.get unique select
detect_dirty_workspace tree base touched =
    dirty_in tree base touched (unique (keys_of tree ++ keys_of base))
