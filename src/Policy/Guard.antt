-- ===== src/Policy/Guard.antt =====
-- When the guard lets an action pass, and what binding gives it.
use github_auto_dev.Base.{
  ℕ, ◌==◌, ◌≡◌, refl, ◌≢◌, ◌↔◌, Option, none, some, List, [], ◌∷◌, String, All, true, arith, eq_iff,
  truthy?, not, select, str_eq, ◌++◌, Bool-cases, inl, inr, is_empty,
}
use github_auto_dev.Policy.{
  GateReason, stale_head, stale_issue_snapshot, drifted, ShaKey, head_sha, issue_snapshot_sha,
  GateShas, ActionKind, BoundAction, sha_of, required, CheckArgs, check_sha, check_keys, check,
  allow, bind, bound,
}

-- `v` agrees with the run's current value, which binds nothing while it is unknown.
abbrev pub Current : Option String → String → Type 0
Current none v = Unit
Current (some now) v = now ≢ "" → v ≡ now

-- A required SHA is there, and is the run's own where the guard compares it with the run.
abbrev pub HoldsAt : CheckArgs → ShaKey → Option String → Type 0
HoldsAt args key none = ⊥
HoldsAt args head_sha (some v) = (v ≢ "") × Current args.current_head v
HoldsAt args issue_snapshot_sha (some v) = (v ≢ "") × Current args.current_issue_snapshot v
HoldsAt args _ (some v) = v ≢ ""

abbrev pub ShaHolds : CheckArgs → ShaKey → Type 0
ShaHolds args key = HoldsAt args key (sha_of args.action.shas key)

is_empty-nil {ℓ} : {A : Type ℓ} (xs : List A) → is_empty xs ≡ true → xs ≡ []
is_empty-nil [] h = refl
is_empty-nil (x ∷ xs) h = cc

append-eq-nil {ℓ} : {A : Type ℓ} (xs ys : List A) → xs ++ ys ≡ [] → (xs ≡ []) × (ys ≡ [])
append-eq-nil [] ys h = (refl, h)
append-eq-nil (x ∷ xs) ys h = cc

drifted-nil :
    (reason : String → String → GateReason) (v : String) (o : Option String)
    → (drifted reason v o ≡ []) ↔ Current o v
drifted-nil reason v none = (λ _. tt, λ _. refl)
drifted-nil reason v (some now) = (
  λ h n. ground (arith, eq_iff now "", eq_iff v now),
  λ c. elim (Bool-cases (str_eq now "")) [
    | inl e ↦ rw e
    | inr n ↦ let e = c (λ x. ground (arith, eq_iff now "")) in ground (arith, eq_iff v now)
  ],
)

check_sha-nil :
    (args : CheckArgs) (key : ShaKey) (o : Option String)
    → (check_sha args key o ≡ []) ↔ HoldsAt args key o
check_sha-nil args key none = (λ h. cc, λ h. absurd h)
check_sha-nil args head_sha (some v) =
    let d = drifted-nil stale_head v args.current_head in
    (
      λ h. (ground (arith, eq_iff v ""), d.0 (ground arith)),
      λ h. ground (arith, eq_iff v "", d.1 h.1),
    )
check_sha-nil args issue_snapshot_sha (some v) =
    let d = drifted-nil stale_issue_snapshot v args.current_issue_snapshot in
    (
      λ h. (ground (arith, eq_iff v ""), d.0 (ground arith)),
      λ h. ground (arith, eq_iff v "", d.1 h.1),
    )
check_sha-nil args _ (some v) = ground (arith, eq_iff v "")

check_keys-nil :
    (args : CheckArgs) (keys : List ShaKey) → (check_keys args keys ≡ []) ↔ All (ShaHolds args) keys
unfolding check_keys
check_keys-nil args [] = (λ _. tt, λ _. refl)
check_keys-nil args (key ∷ keys) =
    let one = check_sha-nil args key (sha_of args.action.shas key) in
    let rest = check_keys-nil args keys in
    (λ h. let e = append-eq-nil _ _ h in (one.0 e.0, rest.0 e.1), λ h. rw (one.1 h.0) (rest.1 h.1))

-- The guard allows an action exactly when its generation is the run's, and each SHA that its kind
-- requires is present, not empty, and, for the head and the issue snapshot, equal to the run's
-- current value where that is known.
pub check-allow_iff :
    (args : CheckArgs)
    → ((check args).decision ≡ allow) ↔ (
        (args.action.generation ≡ args.current_generation)
        × All (ShaHolds args) (required args.action.kind))
unfolding check
check-allow_iff args =
    let keys = check_keys-nil args (required args.action.kind) in
    elim (Bool-cases (args.action.generation == args.current_generation)) [
      | inl same ↦
          rw same
            (λ h. (ground arith, keys.0 (is_empty-nil _ (ground arith))), λ h. rw (keys.1 h.1) refl)
      | inr other ↦ (λ h. absurd (ground arith), λ h. absurd (ground arith))
    ]

bound_action :
    (kind : ActionKind) (generation : ℕ) (shas : GateShas) (a : BoundAction)
    → bind kind generation shas ≡ bound a
    → (a ≡ record { kind = kind; generation = generation; shas = shas })
      × (select (λ k. not (truthy? (sha_of shas k))) (required kind) ≡ [])
unfolding bind
bound_action kind generation shas a h =
    elim (Bool-cases (is_empty (select (λ k. not (truthy? (sha_of shas k))) (required kind)))) [
      | inl e ↦ (ground arith, is_empty-nil _ e)
      | inr n ↦ absurd (ground arith)
    ]

none_absent :
    (kind : ActionKind) (shas : GateShas) (keys : List ShaKey)
    → select (λ k. not (truthy? (sha_of shas k))) keys ≡ []
    → All (λ k. truthy? (sha_of shas k) ≡ true) keys
unfolding select
none_absent kind shas [] h = tt
none_absent kind shas (k ∷ keys) h = (ground arith, none_absent kind shas keys (ground arith))

-- Checked against the values that it was bound to.
abbrev pub own_state : BoundAction → CheckArgs
own_state a = record {
  action = a;
  current_generation = a.generation;
  current_head = a.shas.head;
  current_issue_snapshot = a.shas.issue_snapshot;
}

present_at :
    (args : CheckArgs) (key : ShaKey) (o : Option String)
    → (key ≡ head_sha → args.current_head ≡ o)
    → (key ≡ issue_snapshot_sha → args.current_issue_snapshot ≡ o)
    → truthy? o ≡ true
    → HoldsAt args key o
present_at args key none eh ei h = cc
present_at args head_sha (some v) eh ei h = (ground (arith, eq_iff v ""), rw (eh refl) (λ _. refl))
present_at args issue_snapshot_sha (some v) eh ei h =
    (ground (arith, eq_iff v ""), rw (ei refl) (λ _. refl))
present_at args _ (some v) eh ei h = ground (arith, eq_iff v "")

present :
    (a : BoundAction) (key : ShaKey)
    → truthy? (sha_of a.shas key) ≡ true
    → ShaHolds (own_state a) key
present a head_sha h = present_at (own_state a) head_sha a.shas.head (λ _. refl) (λ e. cc) h
present a issue_snapshot_sha h =
    present_at (own_state a) issue_snapshot_sha a.shas.issue_snapshot (λ e. cc) (λ _. refl) h
present a key h = present_at (own_state a) key (sha_of a.shas key) (λ e. cc) (λ e. cc) h

present-All :
    (a : BoundAction) (keys : List ShaKey)
    → All (λ k. truthy? (sha_of a.shas k) ≡ true) keys
    → All (ShaHolds (own_state a)) keys
present-All a [] h = tt
present-All a (k ∷ keys) h = (present a k h.0, present-All a keys h.1)

-- Whatever `bind` accepts, the guard allows while the run is still at the generation, the head and
-- the issue snapshot of the binding; and `bind` keeps the kind, the generation and the SHAs given.
pub bind-check :
    (kind : ActionKind) (generation : ℕ) (shas : GateShas) (a : BoundAction)
    → bind kind generation shas ≡ bound a
    → (a ≡ record { kind = kind; generation = generation; shas = shas })
      × ((check (own_state a)).decision ≡ allow)
bind-check kind generation shas a h =
    let (same, full) = bound_action kind generation shas a h in
    (
      same,
      (check-allow_iff (own_state a)).1 (
        refl,
        present-All a (required a.kind) (rw same (none_absent kind shas (required kind) full)),
      ),
    )
