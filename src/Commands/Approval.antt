-- ===== src/Commands/Approval.antt =====
-- What the approval of a plan stands for.
use github_auto_dev.Base.{
  ℕ, ◌≤◌, ◌<◌, String, ◌≡◌, refl, ◌≢◌, eq_iff, Option, none, some, List, [], ◌∷◌, Bool, true, false,
  arith, Bool-cases, Option-cases, inl, inr, In, All, any, find, find_sound, ap,
}
use github_auto_dev.Commands.Authorization.{
  GitHubPermission, maintain, approve_plan, DecisionKind, allow, deny, AuthorizationDecision,
  Records, AuthorizeInput, permission_rank, authorize,
}
use github_auto_dev.Commands.PlanApproval.{
  PlanRef, Submitted, PlanApprovalInput, plan_id_not_found, plan_sha_mismatch, stale_generation,
  not_authorized, PlanApprovalDecision, approved, rejected, conflict, Write, saved, audit_rejected,
  audit_approved, same_id, match_plan, is_stale, conclude, decide_for, decide_plan,
}
use github_auto_dev.Commands.Matching.{
  IsSubmitted, authorize-allow_iff, match_sound, any_sound, none_submitted,
}

-- What a decision stands for, with what is written for it.
pub data Verdict (i : PlanApprovalInput) : PlanApprovalDecision → List Write → Type 0 where
  refused :
      i.authorization.kind ≡ deny
      → Verdict i (rejected not_authorized i.actor i.source_comment_id i.submitted) []
  accepted :
      {p : PlanRef} {id now : String}
      → i.authorization.kind ≡ allow
      → In p i.candidates
      → IsSubmitted i.submitted p
      → i.current_generation ≤ p.generation
      → Verdict i (approved p i.actor i.source_comment_id) (
          saved (record {
            id = id;
            plan_id = p.plan_id;
            plan_sha = p.plan_sha;
            generation = p.generation;
            actor = i.actor;
            source_comment_id = i.source_comment_id;
            repo = "";
            issue_number = 0;
            created_at = now;
          })
          ∷ audit_approved i.actor p.plan_id p.plan_sha p.generation i.source_comment_id
          ∷ [])
  conflicted : i.authorization.kind ≡ allow → Verdict i conflict []
  stale :
      {p : PlanRef}
      → i.authorization.kind ≡ allow
      → In p i.candidates
      → IsSubmitted i.submitted p
      → p.generation < i.current_generation
      → Verdict i (rejected stale_generation i.actor i.source_comment_id i.submitted) (
          audit_rejected i.actor i.submitted i.source_comment_id stale_generation
            i.current_generation
          ∷ [])
  other_sha :
      {p : PlanRef}
      → i.authorization.kind ≡ allow
      → In p i.candidates
      → p.plan_id ≡ i.submitted.plan_id
      → ((q : PlanRef) → In q i.candidates → ¬ IsSubmitted i.submitted q)
      → Verdict i (rejected plan_sha_mismatch i.actor i.source_comment_id i.submitted) (
          audit_rejected i.actor i.submitted i.source_comment_id plan_sha_mismatch
            i.current_generation
          ∷ [])
  unknown :
      i.authorization.kind ≡ allow
      → All (λ q. q.plan_id ≢ i.submitted.plan_id) i.candidates
      → Verdict i (rejected plan_id_not_found i.actor i.source_comment_id i.submitted) (
          audit_rejected i.actor i.submitted i.source_comment_id plan_id_not_found
            i.current_generation
          ∷ [])

no_id :
    (s : Submitted) (cs : List PlanRef)
    → any (same_id s) cs ≡ false
    → All (λ q. q.plan_id ≢ s.plan_id) cs
unfolding any
no_id s [] h = tt
no_id s (c ∷ cs) h = (ground (arith, eq_iff c.plan_id s.plan_id), no_id s cs (ground arith))

unmatched :
    (i : PlanApprovalInput) (save_ok : Bool) (id now : String)
    → i.authorization.kind ≡ allow
    → match_plan i.submitted i.candidates i.current_generation ≡ none
    → Verdict i (conclude i save_ok id now none).0 (conclude i save_ok id now none).1
unfolding conclude
unmatched i save_ok id now ok h =
    elim (Option-cases (find (is_stale i.submitted i.current_generation) i.candidates)) [
      | inr (p, found) ↦
          let (j, t) =
            find_sound (is_stale i.submitted i.current_generation) i.candidates p found in
          let same : IsSubmitted i.submitted p =
            ground (
              arith,
              eq_iff p.plan_id i.submitted.plan_id,
              eq_iff p.plan_sha i.submitted.plan_sha,
            ) in
          let old : p.generation < i.current_generation = ground arith in
          rw found (stale ok j same old)
      | inl fresh ↦ elim (Bool-cases (any (same_id i.submitted) i.candidates)) [
        | inl t ↦
            let (p, j, same) = any_sound (same_id i.submitted) i.candidates t in
            rw (fresh, t)
              (other_sha ok j ((eq_iff p.plan_id i.submitted.plan_id).0 same)
                (λ q k. none_submitted i.submitted i.candidates i.current_generation q h fresh k))
        | inr f ↦ rw (fresh, f) (unknown ok (no_id i.submitted i.candidates f))
      ]
    ]

concluded :
    (i : PlanApprovalInput) (save_ok : Bool) (id now : String) (o : Option PlanRef)
    → i.authorization.kind ≡ allow
    → match_plan i.submitted i.candidates i.current_generation ≡ o
    → Verdict i (conclude i save_ok id now o).0 (conclude i save_ok id now o).1
unfolding conclude
concluded i save_ok id now none ok h = unmatched i save_ok id now ok h
concluded i false id now (some p) ok h = conflicted ok
concluded i true id now (some p) ok h =
    let (j, same, new) = match_sound i.submitted i.candidates i.current_generation p h in
    accepted ok j same new

decide_for-Verdict :
    (i : PlanApprovalInput) (save_ok : Bool) (id now : String) (k : DecisionKind)
    → i.authorization.kind ≡ k
    → Verdict i (decide_for k i save_ok id now).0 (decide_for k i save_ok id now).1
decide_for-Verdict i save_ok id now deny e = refused e
decide_for-Verdict i save_ok id now allow e = concluded i save_ok id now _ e refl

-- Every decision on a plan stands for what its name says, and writes what belongs to it. A plan is
-- approved only when the command was allowed and the plan is a candidate with the submitted id and
-- SHA whose generation is not behind the current one; its approval is saved and then audited. A
-- rejection as stale has such a candidate of an older generation; one for the SHA has a candidate
-- with the id and none with both; one for the id has no candidate with it. These three are audited;
-- a command that was denied, or a conflict of the repository, writes nothing.
pub decide_plan-Verdict :
    (i : PlanApprovalInput) (save_ok : Bool) (id now : String)
    → Verdict i (decide_plan i save_ok id now).0 (decide_plan i save_ok id now).1
unfolding decide_plan
decide_plan-Verdict i save_ok id now = decide_for-Verdict i save_ok id now i.authorization.kind refl

approved_inv :
    (i : PlanApprovalInput) (d : PlanApprovalDecision) (ws : List Write) (p : PlanRef)
    (actor : String) (n : ℕ)
    → Verdict i d ws
    → d ≡ approved p actor n
    → (i.authorization.kind ≡ allow)
      × In p i.candidates
      × IsSubmitted i.submitted p
      × (i.current_generation ≤ p.generation)
      × (actor ≡ i.actor)
approved_inv i d ws p actor n (refused h) e = cc
approved_inv i d ws p actor n (accepted {p = q} ok j same new) e =
    let f : q ≡ p = cc in (ok, rw f at j, rw f at same, rw f at new, cc)
approved_inv i d ws p actor n (conflicted ok) e = cc
approved_inv i d ws p actor n (stale ok j same old) e = cc
approved_inv i d ws p actor n (other_sha ok j same bare) e = cc
approved_inv i d ws p actor n (unknown ok bare) e = cc

-- From the comment to the approval. The authorization of an `/approve-plan` command without an
-- override, with the permission that its actor has, is what a decision on that actor's submission
-- rests on. When a plan is approved, it is approved in the name of that actor, who has the `maintain`
-- permission or more, and it is a candidate with the submitted id and SHA whose generation is not
-- behind the current one.
pub authorize-decide_plan_safe :
    (a : AuthorizeInput) (permission_of : String → GitHubPermission) (id1 now1 : String)
    (records : Records) (i : PlanApprovalInput) (save_ok : Bool) (id now : String) (p : PlanRef)
    (actor : String) (n : ℕ)
    → a.command ≡ approve_plan
    → a.required_permission_override ≡ none
    → i.actor ≡ a.actor
    → i.authorization ≡ (authorize a (permission_of a.actor) id1 now1 records).0
    → (decide_plan i save_ok id now).0 ≡ approved p actor n
    → (actor ≡ a.actor)
      × (permission_rank maintain ≤ permission_rank (permission_of actor))
      × In p i.candidates
      × IsSubmitted i.submitted p
      × (i.current_generation ≤ p.generation)
authorize-decide_plan_safe a permission_of id1 now1 records i save_ok id now p actor n c bare mine
      auth h =
    let (ok, j, same, new, by) =
      approved_inv i _ _ p actor n (decide_plan-Verdict i save_ok id now) h in
    let kind = ap (λ (d : AuthorizationDecision). d.kind) auth in
    let rank =
      (authorize-allow_iff a (permission_of a.actor) id1 now1 records).0.0 (cc (kind, ok)) in
    let who : actor ≡ a.actor = cc (by, mine) in
    let ranked : permission_rank maintain ≤ permission_rank (permission_of a.actor) =
      rw (bare, c) at rank in
    (who, rw who ranked, j, same, new)
