-- ===== src/Merge/Execution/Credential.antt =====
-- Which credentials may merge.
use github_auto_dev.Base.{
  String, ◌≡◌, ◌≢◌, ◌↔◌, List, [], ◌∷◌, Bool, true, false, not, arith, eq_iff, truthy, str_eq, In,
  here, there, any, All, is_empty, Bool-cases, inl, inr, In-cons, select, select-is_empty, All-map,
  sym, ◌++◌,
}
use github_auto_dev.Merge.Execution.{
  only_if, required_scopes, forbidden_scopes, includes, validate_merge_token_profile,
}

includes_iff : (scopes : List String) (s : String) → (includes scopes s ≡ true) ↔ In s scopes
unfolding any
includes_iff [] s = (λ h. cc, λ i. elim i [ ])
includes_iff (x ∷ xs) s =
    let rest = includes_iff xs s in
    (
      λ h. elim (Bool-cases (str_eq x s)) [
        | inl e ↦ here (sym ((eq_iff x s).0 e))
        | inr n ↦ there (rest.0 (ground arith))
      ],
      λ i. elim (In-cons s x xs i) [
        | inl e ↦ rw ((eq_iff x s).1 (sym e))
        | inr j ↦ ground (arith, rest.1 j)
      ],
    )

false_of : (scopes : List String) (s : String) → ¬ In s scopes → includes scopes s ≡ false
false_of scopes s n = elim (Bool-cases (includes scopes s)) [
  | inl t ↦ absurd (n ((includes_iff scopes s).0 t))
  | inr f ↦ f
]

four_absent :
    (a b c d : Bool) (s t u v : String)
    → (is_empty (only_if a s ++ (only_if b t ++ (only_if c u ++ only_if d v))) ≡ true)
      ↔ ((a ≡ false) × (b ≡ false) × (c ≡ false) × (d ≡ false))
four_absent a b c d s t u v = ground arith

none_forbidden :
    (scopes : List String)
    → (is_empty (select (λ s. includes scopes s) forbidden_scopes) ≡ true)
      ↔ All (λ s. ¬ In s scopes) forbidden_scopes
none_forbidden scopes =
    let e = select-is_empty (λ s. includes scopes s) forbidden_scopes in
    (
      λ h.
          All-map (λ s. includes scopes s ≡ false) (λ s. ¬ In s scopes)
            (λ s f i. cc ((includes_iff scopes s).1 i)) forbidden_scopes (e.0 h),
      λ h. e.1 (
          All-map (λ s. ¬ In s scopes) (λ s. includes scopes s ≡ false) (false_of scopes)
            forbidden_scopes h),
    )

none_missing :
    (scopes : List String)
    → (is_empty (select (λ s. not (includes scopes s)) required_scopes) ≡ true)
      ↔ All (λ s. In s scopes) required_scopes
none_missing scopes =
    let e = select-is_empty (λ s. not (includes scopes s)) required_scopes in
    (
      λ h.
          All-map (λ s. not (includes scopes s) ≡ false) (λ s. In s scopes)
            (λ s f. (includes_iff scopes s).0 (ground arith)) required_scopes (e.0 h),
      λ h. e.1 (
          All-map (λ s. In s scopes) (λ s. not (includes scopes s) ≡ false)
            (λ s i. rw ((includes_iff scopes s).1 i)) required_scopes h),
    )

-- A credential is good for merging exactly when it comes from a trusted profile, is not empty, has
-- every required scope and none of the four forbidden ones; any other scope is accepted.
pub validate-is_merge_manager_iff :
    (token : String) (scopes : List String) (is_trusted : Bool)
    → ((validate_merge_token_profile token scopes is_trusted).is_merge_manager ≡ true) ↔ (
        (is_trusted ≡ true)
        × (token ≢ "")
        × All (λ s. In s scopes) required_scopes
        × All (λ s. ¬ In s scopes) forbidden_scopes)
unfolding validate_merge_token_profile
validate-is_merge_manager_iff token scopes is_trusted =
    let four =
      four_absent (not is_trusted) (not (truthy token))
        (not (is_empty (select (λ s. includes scopes s) forbidden_scopes)))
        (not (is_empty (select (λ s. not (includes scopes s)) required_scopes))) _ _ _ _ in
    (
      λ h.
          let (t, k, f, r) = four.0 h in
          (
            ground arith,
            ground (arith, eq_iff token ""),
            (none_missing scopes).0 (ground arith),
            (none_forbidden scopes).0 (ground arith),
          ),
      λ h.
          let (t, k, r, f) = h in
          four.1 (
            rw t,
            ground (arith, eq_iff token ""),
            rw ((none_forbidden scopes).1 f),
            rw ((none_missing scopes).1 r),
          ),
    )
