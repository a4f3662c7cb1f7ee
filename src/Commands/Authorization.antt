-- ===== src/Commands/Authorization.antt =====
-- commands/authorization.ts. What GitHub says of the actor's permission, the fresh id and the time
-- are arguments; the table and the audit log are lists of what has been written, in order.
use github_auto_dev.Base.{
  ℕ, leb, String, Option, List, [], ◌∷◌, ◌++◌, Bool, true, false, or_else, if◌then◌else◌,
}
use github_auto_dev.Base.Text.{◌<>◌, show}

pub data GitHubPermission : Type 0 where
  admin maintain write read no_permission : GitHubPermission

-- `CommandName` of parser.ts.
pub data CommandName : Type 0 where
  help status plan approve_plan cancel_plan cancel_run retry merge_pr close reopen assign label
        unlabel answer abort :
      CommandName

-- `COMMAND_PERMISSION_POLICY`.
abbrev pub permission_policy : CommandName → GitHubPermission
permission_policy help = read
permission_policy status = read
permission_policy plan = read
permission_policy approve_plan = maintain
permission_policy cancel_plan = write
permission_policy cancel_run = write
permission_policy retry = write
permission_policy merge_pr = admin
permission_policy close = write
permission_policy reopen = write
permission_policy assign = write
permission_policy label = write
permission_policy unlabel = write
permission_policy answer = read
permission_policy abort = admin

-- `RANK` and `permissionRank`.
abbrev pub permission_rank : GitHubPermission → ℕ
permission_rank admin = 4
permission_rank maintain = 3
permission_rank write = 2
permission_rank read = 1
permission_rank no_permission = 0

abbrev permission_name : GitHubPermission → String
permission_name admin = "admin"
permission_name maintain = "maintain"
permission_name write = "write"
permission_name read = "read"
permission_name no_permission = "none"

pub data DecisionKind : Type 0 where
  allow deny : DecisionKind

abbrev pub is_allow : DecisionKind → Bool
is_allow allow = true
is_allow deny = false

pub record AuthorizationDecision : Type 0 where
  pub kind : DecisionKind
  pub actor : String
  pub permission : GitHubPermission
  pub command : CommandName
  pub source_comment_id : ℕ
  pub reason : String

pub record CommandAuthorizationRecord : Type 0 where
  pub id : String
  pub repo : String
  pub issue_number : ℕ
  pub command : CommandName
  pub actor : String
  pub resolved_permission : GitHubPermission
  pub required_permission : GitHubPermission
  pub decision : DecisionKind
  pub reason : String
  pub source_comment_id : ℕ
  pub created_at : String

-- The audit entry; its action is `command.authorize.` with the decision.
pub record AuditEntry : Type 0 where
  pub decision : DecisionKind
  pub actor : String
  pub target : String
  pub command : CommandName
  pub source_comment_id : ℕ
  pub resolved_permission : GitHubPermission
  pub required_permission : GitHubPermission
  pub reason : String

pub record Records : Type 0 where
  pub authorizations : List CommandAuthorizationRecord
  pub audit : List AuditEntry

pub record AuthorizeInput : Type 0 where
  pub repo : String
  pub issue_number : ℕ
  pub command : CommandName
  pub actor : String
  pub source_comment_id : ℕ
  pub required_permission_override : Option GitHubPermission

abbrev pub required_for : AuthorizeInput → GitHubPermission
required_for i = or_else i.required_permission_override (permission_policy i.command)

abbrev reason_text : Bool → AuthorizeInput → GitHubPermission → String
reason_text ok i permission =
    "actor '"
    <> i.actor
    <> "' has '"
    <> permission_name permission
    <> (if ok then "' ≥ required '" else "' < required '")
    <> permission_name (required_for i)
    <> "'"

-- `CommandAuthorizationService.authorize`.
unfoldable pub authorize :
    AuthorizeInput
    → (permission : GitHubPermission) → (id now : String) → Records
    → AuthorizationDecision × Records
authorize i permission id now records =
    let ok = leb (permission_rank (required_for i)) (permission_rank permission) in
    let kind = if ok then allow else deny in
    let reason = reason_text ok i permission in
    (
      record {
        kind = kind;
        actor = i.actor;
        permission = permission;
        command = i.command;
        source_comment_id = i.source_comment_id;
        reason = reason;
      },
      record {
        authorizations =
            records.authorizations
            ++ record {
              id = id;
              repo = i.repo;
              issue_number = i.issue_number;
              command = i.command;
              actor = i.actor;
              resolved_permission = permission;
              required_permission = required_for i;
              decision = kind;
              reason = reason;
              source_comment_id = i.source_comment_id;
              created_at = now;
            }
              ∷ [];
        audit =
            records.audit
            ++ record {
              decision = kind;
              actor = i.actor;
              target = i.repo <> "#" <> show i.issue_number;
              command = i.command;
              source_comment_id = i.source_comment_id;
              resolved_permission = permission;
              required_permission = required_for i;
              reason = reason;
            }
              ∷ [];
      },
    )
