-- ===== src/Policy.antt =====
-- packages/policy/src/gates.ts: which SHAs an authoritative action is bound to, and when it is
-- refused or an event is stale. A reason text is a constructor that holds what it interpolates.
pub mod Guard
pub mod Staleness
use github_auto_dev.Base.{
  ℕ, ◌==◌, ltb, Option, none, some, List, [], ◌∷◌, ◌++◌, Bool, true, false, not, ◌&&◌, String,
  str_eq, truthy?, if◌then◌else◌, select, is_empty,
}

-- `keyof GateShas`.
pub data ShaKey : Type 0 where
  spec_sha plan_sha approval_sha head_sha base_sha issue_snapshot_sha : ShaKey

-- An absent field is `none`.
pub record GateShas : Type 0 where
  pub spec : Option String
  pub plan : Option String
  pub approval : Option String
  pub head : Option String
  pub base : Option String
  pub issue_snapshot : Option String

pub data ActionKind : Type 0 where
  spec plan approval test review merge : ActionKind

pub record BoundAction : Type 0 where
  pub kind : ActionKind
  pub generation : ℕ
  pub shas : GateShas

-- `action.shas[key]`.
abbrev pub sha_of : GateShas → ShaKey → Option String
sha_of s spec_sha = s.spec
sha_of s plan_sha = s.plan
sha_of s approval_sha = s.approval
sha_of s head_sha = s.head
sha_of s base_sha = s.base
sha_of s issue_snapshot_sha = s.issue_snapshot

-- `KIND_TO_REQUIRED_SHA`.
abbrev pub required : ActionKind → List ShaKey
required spec = issue_snapshot_sha ∷ []
required plan = issue_snapshot_sha ∷ spec_sha ∷ []
required approval = issue_snapshot_sha ∷ spec_sha ∷ plan_sha ∷ []
required test = head_sha ∷ []
required review = head_sha ∷ []
required merge = head_sha ∷ approval_sha ∷ []

pub data GateReason : Type 0 where
  stale_generation : (action current : ℕ) → GateReason
  missing_sha : ShaKey → GateReason
  stale_head : (action current : String) → GateReason
  stale_issue_snapshot : (action current : String) → GateReason

pub data Decision : Type 0 where
  allow deny : Decision

pub record GateCheck : Type 0 where
  pub decision : Decision
  pub reasons : List GateReason

pub record CheckArgs : Type 0 where
  pub action : BoundAction
  pub current_generation : ℕ
  pub current_head : Option String
  pub current_issue_snapshot : Option String

-- `expected && v !== expected`, with the reason that it pushes.
abbrev pub drifted : (String → String → GateReason) → String → Option String → List GateReason
drifted reason v none = []
drifted reason v (some now) =
    if not (str_eq now "") && not (str_eq v now) then reason v now ∷ [] else []

-- The two tests at the end of the loop's body.
abbrev pub drift_at : CheckArgs → ShaKey → String → List GateReason
drift_at args head_sha v = drifted stale_head v args.current_head
drift_at args issue_snapshot_sha v = drifted stale_issue_snapshot v args.current_issue_snapshot
drift_at args _ v = []

-- One round of the loop: a missing or empty SHA is reported and skips the rest of the round.
abbrev pub check_sha : CheckArgs → ShaKey → Option String → List GateReason
check_sha args key none = missing_sha key ∷ []
check_sha args key (some v) = if str_eq v "" then missing_sha key ∷ [] else drift_at args key v

unfoldable pub check_keys : CheckArgs → List ShaKey → List GateReason
check_keys args [] = []
check_keys args (key ∷ keys) =
    check_sha args key (sha_of args.action.shas key) ++ check_keys args keys

-- `GateGuard.check`.
unfoldable pub check : CheckArgs → GateCheck
unfolding check_keys
check args =
    let found =
      if args.action.generation == args.current_generation
      then []
      else stale_generation args.action.generation args.current_generation ∷ [] in
    let reasons = found ++ check_keys args (required args.action.kind) in
    record { decision = if is_empty reasons then allow else deny; reasons = reasons }

-- `HashBindingService.bind`: the error carries the missing keys.
pub data BindResult : Type 0 where
  bound : BoundAction → BindResult
  missing : ActionKind → List ShaKey → BindResult

unfoldable pub bind : ActionKind → ℕ → GateShas → BindResult
unfolding select
bind kind generation shas =
    let absent = select (λ k. not (truthy? (sha_of shas k))) (required kind) in
    if is_empty absent
    then bound (record { kind = kind; generation = generation; shas = shas })
    else missing kind absent

pub data StaleReason : Type 0 where
  old_generation old_head_sha old_issue_snapshot fresh : StaleReason

pub record StaleEventResult : Type 0 where
  pub stale : Bool
  pub reason : StaleReason

-- The event's and the run's identity; an absent or null value is `none`.
pub record StalenessArgs : Type 0 where
  pub event_generation : Option ℕ
  pub event_head : Option String
  pub event_issue_snapshot : Option String
  pub current_generation : ℕ
  pub current_head : Option String
  pub current_issue_snapshot : Option String

abbrev pub older : Option ℕ → ℕ → Bool
older none current = false
older (some g) current = ltb g current

-- `a && b && a !== b` on texts that may be absent.
abbrev pub differs : Option String → Option String → Bool
differs (some a) (some b) = not (str_eq a "") && (not (str_eq b "") && not (str_eq a b))
differs _ _ = false

unfoldable pub classify_staleness : StalenessArgs → StaleEventResult
classify_staleness a =
    if older a.event_generation a.current_generation
    then record { stale = true; reason = old_generation }
    else if differs a.event_head a.current_head
    then record { stale = true; reason = old_head_sha }
    else if differs a.event_issue_snapshot a.current_issue_snapshot
    then record { stale = true; reason = old_issue_snapshot }
    else record { stale = false; reason = fresh }
