-- ===== src/Commits/Patch/Validation.antt =====
-- Which patches are applied, and what a patch leaves as it was.
use github_auto_dev.Base.{
  String, ◌≡◌, refl, ◌∙◌, some, Bool, true, false, not, ◌&&◌, List, [], ◌∷◌, map, arith,
  if◌then◌else◌, is_empty, all, select, has,
}
use github_auto_dev.Base.Dict
use github_auto_dev.Commits.Paths.{matches_any, is_protected}
use github_auto_dev.Commits.Overlay.{OverlayEntry}
use github_auto_dev.Commits.Patch.{file_faults, deletion_faults, path_of, deleted_of, apply_all}

-- What a patch may touch: what is allowed, neither forbidden nor protected.
unfoldable pub permits : List String → List String → List String → String → Bool
permits allowed banned patterns f =
    matches_any f allowed && (not (matches_any f banned) && not (is_protected patterns f))

abbrev may_write : List String → List String → String → Bool
may_write allowed banned f = matches_any f allowed && not (matches_any f banned)

module _ (allowed banned patterns : List String) where
  pub file_faults-all :
      (fs : List String)
      → is_empty (file_faults allowed banned fs) ≡ all (may_write allowed banned) fs
  unfolding all
  file_faults-all [] = refl
  file_faults-all (f ∷ fs) = let more = file_faults-all fs in ground arith

  pub deletions_spared :
      (es : List OverlayEntry)
      → is_empty (select (is_protected patterns) (map path_of es)) ≡ true
      → is_empty (deletion_faults (some patterns) (deleted_of es)) ≡ true
  unfolding select
  deletions_spared [] h = refl
  deletions_spared (e ∷ es) h = let more = deletions_spared es in ground arith

  pub all-permits :
      (fs : List String)
      → all (permits allowed banned patterns) fs
        ≡ (all (may_write allowed banned) fs && is_empty (select (is_protected patterns) fs))
  unfolding all select permits
  all-permits [] = refl
  all-permits (f ∷ fs) = let more = all-permits fs in ground arith

-- The patch changes nothing at a path that it does not name.
pub apply_all-get :
    (es : List OverlayEntry) (base : List (String × String)) (f : String)
    → has (map path_of es) f ≡ false
    → Dict.get f (apply_all es base) ≡ Dict.get f base
apply_all-get [] base f h = refl
apply_all-get (e ∷ es) base f h =
    let more =
      apply_all-get es
        (if e.deleted then Dict.remove e.path base else Dict.set e.path e.contents base) f
        (ground arith) in
    let set = Dict.get-set e.path f e.contents base in
    let removed = Dict.get-remove e.path f base in more ∙ ground arith
