-- ===== src/Examples/Webhooks.antt =====
-- Deliveries of concrete requests.
use github_auto_dev.Base.{ℕ, String, ◌≡◌, ◌≢◌, refl, eq_iff, true, false, none, some, [], arith}
use github_auto_dev.Webhooks.Events.{
  Payload, valid, invalid, Parsers, CloudEventEnvelope, external, map_github_event,
  verify_github_signature,
}
use github_auto_dev.Webhooks.Route.{
  Request, Web, WebhookDeps, deduped, outcome, route_event, store_and_publish,
  handle_github_webhook,
}
use github_auto_dev.Webhooks.Replay.{IsReplayed, handle_all, replayed}
use github_auto_dev.Webhooks.Echo.{StripsActors, never_suppressed}

abbrev hmac : String → String → String
hmac key text = "ab12"

abbrev sha256 : String → String
sha256 text = text

abbrev issue : Payload
issue = record { full_name = "o/n"; number = 7; head_sha = ""; comment_user = none; sender = none }

-- Every body is that of an issue that was labelled.
abbrev parsers : Parsers
parsers = record {
  is_json = λ b. true;
  is_null = λ b. false;
  action = λ b. some "labeled";
  issue_opened = λ b. invalid;
  issues_labeled = λ b. valid issue;
  issue_comment_created = λ b. invalid;
  pull_request_synchronize = λ b. invalid;
  workflow_run_completed = λ b. invalid;
}

abbrev deps : WebhookDeps
deps = record { secret = "key"; bot_login = "cgao"; artifact_store = none }

abbrev request_at : ℕ → Request
request_at now = record {
  body = "{}";
  signature = "sha256=ab12";
  event = "issues";
  delivery = "d1";
  now_ms = now;
  now_iso = "t0";
}

abbrev empty_web : Web
empty_web = record {
  dedup = record { records = []; window_ms = 86_400_000 };
  suppression = record { records = []; window_ms = 300_000 };
  artifacts = [];
  published = [];
}

abbrev first_answer : Web
first_answer = (handle_github_webhook hmac sha256 parsers deps (request_at 5) empty_web).1

is_new :
    (handle_github_webhook hmac sha256 parsers deps (request_at 5) empty_web).0
    ≢ outcome deduped (some "d1") "issues"
unfolding handle_github_webhook
is_new h = cc (h)

replayed_example :
    IsReplayed hmac sha256 parsers deps
      (request_at 9)
      (handle_all hmac sha256 parsers deps [] first_answer)
unfolding verify_github_signature
replayed_example =
    replayed hmac sha256 parsers deps (request_at 5) (request_at 9) [] empty_web refl is_new tt refl
      refl refl (omega arith)

abbrev labeled : CloudEventEnvelope
labeled = record {
  id = "d1";
  kind = "issues.labeled";
  subject = "o/n#issue-7";
  trace_id = "d1";
  time = "t0";
  data_read = issue;
  origin = external;
  repo = "o/n";
}

strips : StripsActors parsers
strips = record {
  opened = λ b. tt;
  labeled = λ b. (refl, refl);
  synchronize = λ b. tt;
  completed = λ b. tt;
}

not_comment : ◌≢◌ {A = String} "issues" "issue_comment"
not_comment h = cc ((eq_iff "issues" "issue_comment").1 h)

never_suppressed_example :
    route_event deps (request_at 5) "{}" labeled empty_web
    ≡ store_and_publish deps.artifact_store (request_at 5) "{}" labeled empty_web
unfolding map_github_event
never_suppressed_example =
    never_suppressed parsers deps (request_at 5) "{}" labeled empty_web strips not_comment refl
