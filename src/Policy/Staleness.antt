-- ===== src/Policy/Staleness.antt =====
-- Which events are stale, and how that agrees with the guard.
use github_auto_dev.Base.{
  ℕ, ◌≤◌, ◌≡◌, refl, ◌≢◌, ◌↔◌, inl, inr, Option, none, some, String, false, arith, eq_iff,
  Bool-cases,
}
use github_auto_dev.Policy.{StalenessArgs, older, differs, classify_staleness}

-- Two texts agree wherever both are known and not empty.
abbrev pub Agree : Option String → Option String → Type 0
Agree (some a) (some b) = a ≢ "" → b ≢ "" → a ≡ b
Agree _ _ = Unit

-- An event of no generation is never older than the run.
abbrev pub NotOlder : Option ℕ → ℕ → Type 0
NotOlder none current = Unit
NotOlder (some g) current = current ≤ g

older_iff : (g : Option ℕ) (current : ℕ) → (older g current ≡ false) ↔ NotOlder g current
older_iff none current = (λ _. tt, λ _. refl)
older_iff (some g) current = ground arith

differs_iff : (a b : Option String) → (differs a b ≡ false) ↔ Agree a b
differs_iff none b = (λ _. tt, λ _. refl)
differs_iff (some a) none = (λ _. tt, λ _. refl)
differs_iff (some a) (some b) = (
  λ h n m. ground (arith, eq_iff a "", eq_iff b "", eq_iff a b),
  λ h. elim (Bool-cases (differs (some a) (some b))) [
    | inl d ↦
        let e = h (λ x. ground (arith, eq_iff a "")) (λ x. ground (arith, eq_iff b "")) in
        ground (arith, eq_iff a b)
    | inr s ↦ s
  ],
)

-- An event is fresh exactly when its generation is not below the run's, and its head and its issue
-- snapshot agree with the run's wherever both are known.
pub classify_staleness-fresh_iff :
    (a : StalenessArgs)
    → ((classify_staleness a).stale ≡ false) ↔ (
        NotOlder a.event_generation a.current_generation
        × Agree a.event_head a.current_head
        × Agree a.event_issue_snapshot a.current_issue_snapshot)
unfolding classify_staleness
classify_staleness-fresh_iff a =
    let g = older_iff a.event_generation a.current_generation in
    let h = differs_iff a.event_head a.current_head in
    let i = differs_iff a.event_issue_snapshot a.current_issue_snapshot in
    (
      λ e. (g.0 (ground arith), h.0 (ground arith), i.0 (ground arith)),
      λ e. rw (g.1 e.0, h.1 e.1, i.1 e.2),
    )
