-- ===== src/Commands/PlanApproval.antt =====
-- commands/plan-approval.ts. The repository's answer to `save`, which throws on a conflict, the
-- fresh id and the time are arguments; what the service writes is a list, in order.
use github_auto_dev.Base.{
  ℕ, ltb, String, str_eq, Option, none, some, List, [], ◌∷◌, Bool, true, false, ◌&&◌, any, find,
  select, if◌then◌else◌,
}
use github_auto_dev.Commands.Authorization.{AuthorizationDecision, DecisionKind, allow, deny}

pub record PlanRef : Type 0 where
  pub plan_id : String
  pub plan_sha : String
  pub generation : ℕ

pub record Submitted : Type 0 where
  pub plan_id : String
  pub plan_sha : String

pub record PlanApprovalInput : Type 0 where
  pub submitted : Submitted
  pub actor : String
  pub source_comment_id : ℕ
  pub candidates : List PlanRef
  pub current_generation : ℕ
  pub authorization : AuthorizationDecision

pub data RejectReason : Type 0 where
  plan_id_not_found plan_sha_mismatch stale_generation not_authorized : RejectReason

-- The decision. `conflict` stands for the exception of `save`.
pub data PlanApprovalDecision : Type 0 where
  approved : (plan : PlanRef) (actor : String) (source_comment_id : ℕ) → PlanApprovalDecision
  rejected :
      (reason : RejectReason) (actor : String) (source_comment_id : ℕ) (attempted : Submitted)
      → PlanApprovalDecision
  conflict : PlanApprovalDecision

pub record ApprovalArtifact : Type 0 where
  pub id : String
  pub plan_id : String
  pub plan_sha : String
  pub generation : ℕ
  pub actor : String
  pub source_comment_id : ℕ
  pub repo : String
  pub issue_number : ℕ
  pub created_at : String

-- What the service writes: an approval that the repository takes, and audit entries.
pub data Write : Type 0 where
  saved : ApprovalArtifact → Write
  audit_rejected :
      (actor : String) (target : Submitted) (source_comment_id : ℕ) (reason : RejectReason)
      (current_generation : ℕ)
      → Write
  audit_approved : (actor plan_id plan_sha : String) (generation source_comment_id : ℕ) → Write

abbrev pub same_id : Submitted → PlanRef → Bool
same_id s p = str_eq p.plan_id s.plan_id

abbrev pub same_sha : Submitted → PlanRef → Bool
same_sha s p = str_eq p.plan_sha s.plan_sha

abbrev pub if_current : ℕ → Option PlanRef → Option PlanRef
if_current current none = none
if_current current (some exact) = if ltb exact.generation current then none else some exact

-- `PlanHashMatcher.match`. Its early return on an empty list returns what the search would.
unfoldable pub match_plan : Submitted → List PlanRef → ℕ → Option PlanRef
match_plan s candidates current =
    if_current current (find (same_sha s) (select (same_id s) candidates))

abbrev pub is_stale : Submitted → ℕ → PlanRef → Bool
is_stale s current p = same_id s p && (same_sha s p && ltb p.generation current)

abbrev pub reject_reason : Bool → Option PlanRef → RejectReason
reject_reason id_exists (some stale) = stale_generation
reject_reason true none = plan_sha_mismatch
reject_reason false none = plan_id_not_found

-- After the match.
unfoldable pub conclude :
    PlanApprovalInput
    → (save_ok : Bool) → (id now : String) → Option PlanRef
    → PlanApprovalDecision × List Write
conclude i save_ok id now none =
    let reason =
      reject_reason (any (same_id i.submitted) i.candidates)
        (find (is_stale i.submitted i.current_generation) i.candidates) in
    (
      rejected reason i.actor i.source_comment_id i.submitted,
      audit_rejected i.actor i.submitted i.source_comment_id reason i.current_generation ∷ [],
    )
conclude i true id now (some p) = (
  approved p i.actor i.source_comment_id,
  saved (record {
    id = id;
    plan_id = p.plan_id;
    plan_sha = p.plan_sha;
    generation = p.generation;
    actor = i.actor;
    source_comment_id = i.source_comment_id;
    repo = "";
    issue_number = 0;
    created_at = now;
  })
      ∷ audit_approved i.actor p.plan_id p.plan_sha p.generation i.source_comment_id
      ∷ [],
)
conclude i false id now (some p) = (conflict, [])

abbrev pub decide_for :
    DecisionKind
    → PlanApprovalInput
    → (save_ok : Bool) → (id now : String) → PlanApprovalDecision × List Write
decide_for deny i save_ok id now =
    (rejected not_authorized i.actor i.source_comment_id i.submitted, [])
decide_for allow i save_ok id now =
    conclude i save_ok id now (match_plan i.submitted i.candidates i.current_generation)

-- `PlanApprovalService.decide`.
unfoldable pub decide_plan :
    PlanApprovalInput → (save_ok : Bool) → (id now : String) → PlanApprovalDecision × List Write
decide_plan i save_ok id now = decide_for i.authorization.kind i save_ok id now
