-- ===== src/Commits/Builder/Landing.antt =====
-- When a commit lands, and what it may change.
use github_auto_dev.Base.{
  ap, String, ◌≡◌, refl, ◌∙◌, some, ◌⊎◌, inl, inr, Bool, true, false, ◌&&◌, List, [], ◌∷◌, ◌++◌,
  map, arith, is_empty, all, select, has, str_eq, eq_iff, is_empty-append, Bool-cases,
}
use github_auto_dev.Base.Dict
use github_auto_dev.Audit.Chain.{ChainState}
use github_auto_dev.Commits.Paths.{is_protected}
use github_auto_dev.Commits.Patch.{
  path_of, deleted_of, file_faults, deletion_faults, apply_all, apply_to_clean_checkout,
  validate_patch, PatchValidationInput,
}
use github_auto_dev.Commits.Patch.Validation.{
  permits, file_faults-all, deletions_spared, all-permits, apply_all-get,
}
use github_auto_dev.Commits.Message.{
  CommitMessageError, Rendered, rendered, refused, render_commit_message,
}
use github_auto_dev.Commits.Builder.{
  BuildCommitInput, BuildCommitResult, committed, aborted, thrown, CommitArgs, Written, Repo,
  applied_to_base, land, build,
}

abbrev pub is_committed : BuildCommitResult → Bool
is_committed (committed s fs) = true
is_committed (aborted fs rs) = false
is_committed (thrown e) = false

abbrev pub is_aborted : BuildCommitResult → Bool
is_aborted (committed s fs) = false
is_aborted (aborted fs rs) = true
is_aborted (thrown e) = false

-- Whether the patch of an input touches only what it may.
abbrev pub is_clean : List String → BuildCommitInput → Bool
is_clean detector i =
    all (permits i.patch.allowed_paths i.patch.forbidden_paths detector)
      (map path_of i.patch.entries)

-- The tree that the patch makes of the base.
abbrev pub tree_of : BuildCommitInput → List (String × String)
tree_of i = apply_all i.patch.entries i.base

-- What the commit of an input is asked for with.
abbrev pub asked : BuildCommitInput → String → CommitArgs
asked i text = record {
  branch_name = i.branch_name;
  base_sha = i.patch.base_sha;
  tree = tree_of i;
  commit_message = text;
}

Rendered-cases :
    (r : Rendered)
    → ((e : CommitMessageError) × (r ≡ refused e)) ⊎ ((text : String) × (r ≡ rendered text))
Rendered-cases (refused e) = inl (e, refl)
Rendered-cases (rendered text) = inr (text, refl)

aborted_not : (r : BuildCommitResult) → is_aborted r ≡ true → is_committed r ≡ false
aborted_not (committed s fs) h = cc
aborted_not (aborted fs rs) h = refl
aborted_not (thrown e) h = refl

has-all :
    (p : String → Bool) (fs : List String) (f : String)
    → all p fs ≡ true
    → p f ≡ false
    → has fs f ≡ false
unfolding all
has-all p [] f h n = refl
has-all p (g ∷ fs) f h n = elim (Bool-cases (str_eq g f)) [
  | inl t ↦ let e = (eq_iff g f).0 t in absurd (ground arith)
  | inr d ↦ let more = has-all p fs f in ground arith
]

both_sweeps :
    (a d s j c : Bool) → j ≡ (a && d) → c ≡ (a && s) → (s ≡ true → d ≡ true) → (j && s) ≡ c
both_sweeps a d s j c e f h = ground arith

-- The two sweeps of `build` let through exactly the clean patches.
applied-swept :
    (detector : List String) (i : BuildCommitInput)
    → ((applied_to_base detector i).applied
        && is_empty (select (is_protected detector) (applied_to_base detector i).changed_files))
      ≡ is_clean detector i
unfolding apply_to_clean_checkout validate_patch
applied-swept detector i =
    let fs = map path_of i.patch.entries in
    let faults = file_faults-all i.patch.allowed_paths i.patch.forbidden_paths detector fs in
    let both = all-permits i.patch.allowed_paths i.patch.forbidden_paths detector fs in
    let spared =
      deletions_spared i.patch.allowed_paths i.patch.forbidden_paths detector i.patch.entries in
    let joined =
      is_empty-append (file_faults i.patch.allowed_paths i.patch.forbidden_paths fs)
        (deletion_faults (some detector) (deleted_of i.patch.entries)) in
    let key = both_sweeps _ _ _ _ _ joined (rw (← faults) at both) spared in
    elim (Bool-cases (
      is_empty (
        file_faults i.patch.allowed_paths i.patch.forbidden_paths fs
        ++ deletion_faults (some detector) (deleted_of i.patch.entries)))) [
          | inl t ↦ rw t (rw t at key)
          | inr f ↦ rw f (rw f at key)
        ]

applied-result :
    (detector : List String) (i : BuildCommitInput)
    → (applied_to_base detector i).applied ≡ true
    → (applied_to_base detector i).result ≡ tree_of i
unfolding apply_to_clean_checkout
applied-result detector i =
    let input : PatchValidationInput = record {
      changed_files = map path_of i.patch.entries;
      deleted_files = deleted_of i.patch.entries;
      allowed_paths = i.patch.allowed_paths;
      forbidden_paths = i.patch.forbidden_paths;
      detector = some detector;
    } in
    elim (Bool-cases (is_empty (validate_patch input))) [
      | inl t ↦ rw t (λ h. refl)
      | inr f ↦ rw f (λ h. cc)
    ]

module _ {ℓ} {G : Type ℓ} (sha256_hex : String → String) (stamp : ChainState → String × String)
    (write_commit : CommitArgs → G → Written × G) (detector : List String) (i : BuildCommitInput)
    (w : Repo G) where
  abbrev pub built : BuildCommitResult × Repo G
  built = build sha256_hex stamp write_commit detector i w

  build_dirty : is_clean detector i ≡ false → (is_aborted built.0 ≡ true) × (built.1.git ≡ w.git)
  unfolding build
  build_dirty h =
      let swept = applied-swept detector i in
      elim (Bool-cases (applied_to_base detector i).applied) [
        | inl t ↦
            elim (Bool-cases (
              is_empty
                (select (is_protected detector) (applied_to_base detector i).changed_files))) [
                  | inl u ↦ absurd (ground arith)
                  | inr u ↦ rw (t, u) (refl, refl)
                ]
        | inr f ↦ rw f (refl, refl)
      ]

  build_clean :
      is_clean detector i ≡ true
      → built
        ≡ land sha256_hex stamp write_commit detector i
            (tree_of i)
            (render_commit_message i.message)
            w
  unfolding build
  build_clean h =
      let swept = applied-swept detector i in
      let t : (applied_to_base detector i).applied ≡ true = ground arith in
      let u : is_empty (select (is_protected detector) (applied_to_base detector i).changed_files)
          ≡ true =
        ground arith in
      rw (t, u, applied-result detector i t) refl

  -- One of three. The patch touches a path that is not allowed, or is forbidden or protected: the
  -- call aborts, and git is as it was. Or it touches none and the message is refused: that error is
  -- thrown and nothing has changed. Or else the call commits, and git is what the port makes of the
  -- base with the patch on it under the rendered message.
  pub build_lands :
      ((is_clean detector i ≡ false) × (is_aborted built.0 ≡ true) × (built.1.git ≡ w.git))
      ⊎ (((is_clean detector i ≡ true)
            × ((e : CommitMessageError) × (render_commit_message i.message ≡ refused e)
                × (built ≡ (thrown e, w))))
          ⊎ ((is_clean detector i ≡ true)
              × ((text : String) × (render_commit_message i.message ≡ rendered text)
                  × (is_committed built.0 ≡ true)
                  × (built.1.git ≡ (write_commit (asked i text) w.git).1))))
  build_lands = elim (Bool-cases (is_clean detector i)) [
    | inr f ↦ let d = build_dirty f in inl (f, d.0, d.1)
    | inl t ↦
        let e = build_clean t in
        elim (Rendered-cases (render_commit_message i.message)) [
          | inl (err, r) ↦ inr (inl (t, (err, r, e ∙ rw r refl)))
          | inr (text, r) ↦ inr (inr (t, (text, r, rw (e, r) refl, rw (e, r) refl)))
        ]
  ]

  -- Where the call commits, git is what the port makes of one request, for the branch and the base of
  -- the input; and the tree of that request has at every path that is not allowed, or is forbidden or
  -- protected, what the base has there.
  pub untouched :
      is_committed built.0 ≡ true
      → (f : String) → permits i.patch.allowed_paths i.patch.forbidden_paths detector f ≡ false
      → (a : CommitArgs) × (built.1.git ≡ (write_commit a w.git).1)
        × (a.branch_name ≡ i.branch_name)
        × (a.base_sha ≡ i.patch.base_sha)
        × (Dict.get f a.tree ≡ Dict.get f i.base)
  untouched h f n = elim build_lands [
    | inl (dirty, aborts, same) ↦ let no = aborted_not built.0 aborts in absurd (ground arith)
    | inr (inl (clean, (err, refused_it, is))) ↦
        cc (h, ap (λ (r : BuildCommitResult × Repo G). is_committed r.0) is)
    | inr (inr (clean, (text, rendered_it, commits, git))) ↦ (
      asked i text,
      git,
      refl,
      refl,
      apply_all-get i.patch.entries i.base f (has-all _ _ f clean n),
    )
  ]
