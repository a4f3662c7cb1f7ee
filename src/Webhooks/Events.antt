-- ===== src/Webhooks/Events.antt =====
-- packages/github-events/src/mapper.ts, and the signature of packages/github/src/index.ts. What
-- `JSON.parse` and the schemas of Zod make of a body is a parameter, as is HMAC. No event is
-- named like a member that every object has.
use github_auto_dev.Base.{
  ℕ, ◌==◌, String, Option, none, some, Bool, false, not, if◌then◌else◌, str_eq,
}
use github_auto_dev.Base.Text.{◌<>◌, show}
use github_auto_dev.Issues.Words.{units}

-- The fields of a validated payload that the program reads: those of a schema, and what `readActor`
-- looks for.
pub record Payload : Type 0 where
  pub full_name : String
  pub number : ℕ
  pub head_sha : String
  pub comment_user : Option (Option String)
  pub sender : Option (Option String)

pub data Validated : Type 0 where
  invalid : Validated
  valid : Payload → Validated

-- What the library makes of a body: whether it is JSON, whether it is `null`, its
-- `action`, and each schema.
pub record Parsers : Type 0 where
  pub is_json : String → Bool
  pub is_null : String → Bool
  pub action : String → Option String
  pub issue_opened : String → Validated
  pub issues_labeled : String → Validated
  pub issue_comment_created : String → Validated
  pub pull_request_synchronize : String → Validated
  pub workflow_run_completed : String → Validated

pub data Origin : Type 0 where
  external cgao : Origin

pub record CloudEventEnvelope : Type 0 where
  pub id : String
  pub kind : String
  pub subject : String
  pub trace_id : String
  pub time : String
  pub data_read : Payload
  pub origin : Origin
  pub repo : String

-- An envelope, an event that is not supported, or another error.
pub data Mapping : Type 0 where
  mapped : CloudEventEnvelope → Mapping
  unsupported : (event_type : String) → (action : Option String) → Mapping
  thrown : Mapping

abbrev envelope : String → String → String → String → Payload → CloudEventEnvelope
envelope delivery time kind subject p = record {
  id = delivery;
  kind = kind;
  subject = subject;
  trace_id = delivery;
  time = time;
  data_read = p;
  origin = external;
  repo = p.full_name;
}

abbrev issue_event : String → String → String → Payload → Mapping
issue_event delivery time kind p =
    mapped (envelope delivery time kind (p.full_name <> "#issue-" <> show p.number) p)

-- `MAPPERS.issues`.
abbrev pub map_issues : String → String → Mapping → Validated → Validated → Mapping
map_issues delivery time otherwise (valid p) labeled = issue_event delivery time "issues.opened" p
map_issues delivery time otherwise invalid (valid p) = issue_event delivery time "issues.labeled" p
map_issues delivery time otherwise invalid invalid = otherwise

-- To read the `action` of `null` throws.
abbrev pub unsupported_action : Parsers → String → String → Mapping
unsupported_action parsers event body =
    if parsers.is_null body then thrown else unsupported event (parsers.action body)

abbrev map_comment : String → String → Validated → Mapping
map_comment delivery time invalid = thrown
map_comment delivery time (valid p) =
    mapped (
      envelope delivery time "issue_comment.created" (p.full_name <> "#comment-" <> show p.number)
        p)

abbrev pub map_synchronize : String → String → Validated → Mapping
map_synchronize delivery time invalid = thrown
map_synchronize delivery time (valid p) = mapped (
    envelope delivery time "pull_request.synchronize"
      (p.full_name <> "#pr-" <> show p.number <> "@" <> p.head_sha) p)

abbrev pub is_synchronize : Option String → Bool
is_synchronize none = false
is_synchronize (some a) = str_eq a "synchronize"

abbrev pub map_run : String → String → Validated → Mapping
map_run delivery time invalid = thrown
map_run delivery time (valid p) =
    mapped
      (envelope delivery time "workflow_run.completed" (p.full_name <> "#run-" <> show p.number) p)

-- `JSON.parse`, then `mapGithubEvent`.
unfoldable pub map_github_event : Parsers → String → String → String → String → Mapping
unfolding show
map_github_event parsers event delivery body time =
    if not (parsers.is_json body)
    then thrown
    else if str_eq event "issues"
    then map_issues delivery time (unsupported_action parsers "issues" body)
        (parsers.issue_opened body) (parsers.issues_labeled body)
    else if str_eq event "issue_comment"
    then map_comment delivery time (parsers.issue_comment_created body)
    else if str_eq event "pull_request"
    then (if is_synchronize (parsers.action body)
        then map_synchronize delivery time (parsers.pull_request_synchronize body)
        else unsupported_action parsers "pull_request" body)
    else if str_eq event "workflow_run"
    then map_run delivery time (parsers.workflow_run_completed body)
    else unsupported event none

-- `verifyGithubSignature`. Texts of the same length differ in length as bytes only when they differ.
unfoldable pub verify_github_signature :
    (hmac_hex : String → String → String)
    → (body : String) → (header : String) → (secret : String) → Bool
unfolding units
verify_github_signature hmac_hex body header secret =
    let expected = "sha256=" <> hmac_hex secret body in
    if not (units expected == units header) then false else str_eq expected header
