-- ===== src/Commands/Matching.antt =====
-- What an authorization stands for, and which candidate the approval of a plan finds.
use github_auto_dev.Base.{
  ℕ, ltb, ◌≤◌, String, ◌≡◌, refl, ◌↔◌, eq_iff, Option, none, some, List, [], ◌∷◌, ◌++◌, Bool, true,
  false, arith, Bool-cases, Option-cases, inl, inr, In, here, there, All-In, any, find, select,
  find_sound, find-none, select_sound, select_complete, ap,
}
use github_auto_dev.Commands.Authorization.{
  GitHubPermission, allow, AuthorizationDecision, CommandAuthorizationRecord, AuditEntry, Records,
  AuthorizeInput, permission_rank, required_for, authorize,
}
use github_auto_dev.Commands.PlanApproval.{
  PlanRef, Submitted, same_id, same_sha, if_current, match_plan, is_stale,
}

-- Exactly one record and one audit entry are written behind those before, with the decision.
abbrev pub IsRecorded : AuthorizationDecision × Records → Records → Type 0
IsRecorded out before =
    ((r : CommandAuthorizationRecord) × (out.1.authorizations ≡ before.authorizations ++ r ∷ [])
      × (r.decision ≡ out.0.kind))
    × ((a : AuditEntry) × (out.1.audit ≡ before.audit ++ a ∷ []) × (a.decision ≡ out.0.kind))

-- A command is allowed exactly when the actor's permission ranks at least as high as the one that
-- the command requires. Whether it is allowed or denied, one authorization record and one audit
-- entry are written, both with that decision, and none that was there before is changed.
pub authorize-allow_iff :
    (i : AuthorizeInput) (permission : GitHubPermission) (id now : String) (records : Records)
    → (((authorize i permission id now records).0.kind ≡ allow)
        ↔ (permission_rank (required_for i) ≤ permission_rank permission))
      × IsRecorded (authorize i permission id now records) records
unfolding authorize
authorize-allow_iff i granted id now records = (ground arith, ((_, refl, refl), (_, refl, refl)))

-- The candidate is the one that was submitted.
abbrev pub IsSubmitted : Submitted → PlanRef → Type 0
IsSubmitted s p = (p.plan_id ≡ s.plan_id) × (p.plan_sha ≡ s.plan_sha)

if_current-some :
    (current : ℕ) (o : Option PlanRef) (p : PlanRef)
    → if_current current o ≡ some p
    → (o ≡ some p) × (current ≤ p.generation)
if_current-some current none p h = cc
if_current-some current (some q) p h = elim (Bool-cases (ltb q.generation current)) [
  | inl old ↦ cc (rw old at h)
  | inr new ↦
      let e : q ≡ p = cc (rw new at h) in
      let young : current ≤ q.generation = ground arith in (ap some e, rw e at young)
]

pub match_sound :
    (s : Submitted) (cs : List PlanRef) (current : ℕ) (p : PlanRef)
    → match_plan s cs current ≡ some p
    → In p cs × IsSubmitted s p × (current ≤ p.generation)
unfolding match_plan
match_sound s cs current p h =
    let (found, new) = if_current-some current _ p h in
    let (i, sha) = find_sound (same_sha s) (select (same_id s) cs) p found in
    let (j, id) = select_sound (same_id s) cs p i in
    (j, ((eq_iff p.plan_id s.plan_id).0 id, (eq_iff p.plan_sha s.plan_sha).0 sha), new)

pub any_sound :
    (p : PlanRef → Bool) (xs : List PlanRef)
    → any p xs ≡ true
    → (x : PlanRef) × In x xs × (p x ≡ true)
unfolding any
any_sound p [] h = cc
any_sound p (x ∷ xs) h = elim (Bool-cases (p x)) [
  | inl t ↦ (x, here refl, t)
  | inr f ↦ let (y, i, u) = any_sound p xs (rw f at h) in (y, there i, u)
]

-- Nothing matches and nothing is stale: no candidate is the one submitted.
pub none_submitted :
    (s : Submitted) (cs : List PlanRef) (current : ℕ) (q : PlanRef)
    → match_plan s cs current ≡ none
    → find (is_stale s current) cs ≡ none
    → In q cs
    → ¬ IsSubmitted s q
unfolding match_plan
none_submitted s cs current q h fresh i (id, sha) =
    elim (Option-cases (find (same_sha s) (select (same_id s) cs))) [
      | inl absent ↦
          let at_q =
            All-In (λ x. same_sha s x ≡ false) q (select (same_id s) cs)
              (find-none (same_sha s) (select (same_id s) cs) absent)
              (select_complete (same_id s) cs q i ((eq_iff q.plan_id s.plan_id).1 id)) in
          cc (at_q, (eq_iff q.plan_sha s.plan_sha).1 sha)
      | inr (p, found) ↦
          let (j, p_sha) = find_sound (same_sha s) (select (same_id s) cs) p found in
          let (k, p_id) = select_sound (same_id s) cs p j in
          let not_stale =
            All-In (λ x. is_stale s current x ≡ false) p cs
              (find-none (is_stale s current) cs fresh) k in
          elim (Bool-cases (ltb p.generation current)) [
            | inl old ↦ absurd (ground arith)
            | inr new ↦ cc (rw (found, new) at h)
          ]
    ]
