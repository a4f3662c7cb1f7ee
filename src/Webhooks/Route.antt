-- ===== src/Webhooks/Route.antt =====
-- webhook/github-route.ts: the handler of a delivery. The time is read once for a request. What is
-- published is kept in order; the artifact store is a parameter that says whether a write succeeds.
use github_auto_dev.Base.{
  ℕ, String, Option, none, some, Bool, false, not, ◌&&◌, List, [], ◌∷◌, ◌++◌, if◌then◌else◌, str_eq,
  truthy, or_else,
}
use github_auto_dev.Base.Text.{◌<>◌}
use github_auto_dev.Webhooks.Stores.{
  DedupRecord, DedupStore, lookup, remember, SuppressionStore, MutationRecord, match_mutation, Echo,
}
use github_auto_dev.Webhooks.Events.{
  Payload, Parsers, cgao, CloudEventEnvelope, Mapping, mapped, unsupported, thrown,
  map_github_event, verify_github_signature,
}

-- The body and the headers of a request, the missing ones empty, and when it comes.
pub record Request : Type 0 where
  pub body : String
  pub signature : String
  pub event : String
  pub delivery : String
  pub now_ms : ℕ
  pub now_iso : String

-- What is published, by its topic and payload.
pub data Message : Type 0 where
  rejected_signature : (delivery : String) → Message
  rejected_event : (delivery : String) → (event_type : String) → (action : Option String) → Message
  deduped_replay : (delivery : String) → (content_hash : String) → Message
  observed : CloudEventEnvelope → Message
  event_published : (topic : String) → CloudEventEnvelope → Message

pub data Kind : Type 0 where
  accepted deduped rejected not_supported : Kind

-- The answer to a request: an outcome, or an error that the handler throws.
pub data Answer : Type 0 where
  outcome : (kind : Kind) → (delivery : Option String) → (event : String) → Answer
  failure : Answer

-- The status of an answer.
abbrev pub status_of : Kind → ℕ
status_of accepted = 200
status_of deduped = 200
status_of rejected = 401
status_of not_supported = 202

pub record ArtifactWrite : Type 0 where
  pub key : String
  pub content : String
  pub repo : String
  pub created_at : String

pub record Web : Type 0 where
  pub dedup : DedupStore
  pub suppression : SuppressionStore
  pub artifacts : List ArtifactWrite
  pub published : List Message

-- `deps`: the secret, the bot, and where there is a store of artifacts whether it takes a write.
pub record WebhookDeps : Type 0 where
  pub secret : String
  pub bot_login : String
  pub artifact_store : Option (ArtifactWrite → Bool)

abbrev pub publish : Message → Web → Web
publish m w = record {
  dedup = w.dedup;
  suppression = w.suppression;
  artifacts = w.artifacts;
  published = w.published ++ m ∷ [];
}

abbrev pub with_dedup : DedupStore → Web → Web
with_dedup d w = record {
  dedup = d;
  suppression = w.suppression;
  artifacts = w.artifacts;
  published = w.published;
}

abbrev pub with_suppression : SuppressionStore → Web → Web
with_suppression s w = record {
  dedup = w.dedup;
  suppression = s;
  artifacts = w.artifacts;
  published = w.published;
}

abbrev with_artifact : ArtifactWrite → Web → Web
with_artifact a w = record {
  dedup = w.dedup;
  suppression = w.suppression;
  artifacts = w.artifacts ++ a ∷ [];
  published = w.published;
}

-- `readActor`.
abbrev pub actor_of : Option (Option String) → Option (Option String) → Option String
actor_of (some user) sender = user
actor_of none (some login) = login
actor_of none none = none

abbrev pub read_actor : Payload → Option String
read_actor p = actor_of p.comment_user p.sender

-- A truthy actor that is the bot.
abbrev pub is_bot : WebhookDeps → Option String → Bool
is_bot deps none = false
is_bot deps (some a) = truthy a && str_eq a deps.bot_login

abbrev pub by_program : CloudEventEnvelope → CloudEventEnvelope
by_program e = record {
  id = e.id;
  kind = e.kind;
  subject = e.subject;
  trace_id = e.trace_id;
  time = e.time;
  data_read = e.data_read;
  origin = cgao;
  repo = e.repo;
}

abbrev pub accepted_as : Request → CloudEventEnvelope → Answer
accepted_as r e = outcome accepted (some r.delivery) e.kind

-- The last step: the event is published.
abbrev publish_event : Request → CloudEventEnvelope → Web → Answer × Web
publish_event r e w = (accepted_as r e, publish (event_published ("webhook.github." <> e.kind) e) w)

-- The raw payload is written first, where there is a store.
abbrev pub store_and_publish :
    Option (ArtifactWrite → Bool) → Request → String → CloudEventEnvelope → Web → Answer × Web
store_and_publish none r hash e w = publish_event r e w
store_and_publish (some takes) r hash e w =
    let a : ArtifactWrite = record {
      key = "sha256:" <> hash;
      content = r.body;
      repo = e.repo;
      created_at = e.time;
    } in
    if takes a then publish_event r e (with_artifact a w) else (failure, w)

-- What follows when the suppression store was asked.
abbrev pub after_match :
    WebhookDeps → Request → String → CloudEventEnvelope → Option MutationRecord → Web → Answer × Web
after_match deps r hash e none w = store_and_publish deps.artifact_store r hash e w
after_match deps r hash e (some m) w = (accepted_as r e, publish (observed (by_program e)) w)

abbrev pub echo_of : String → String → CloudEventEnvelope → Echo
echo_of actor hash e = record {
  actor = actor;
  event_type = e.kind;
  subject = e.subject;
  content_hash = hash;
}

unfoldable pub route_event :
    WebhookDeps → Request → String → CloudEventEnvelope → Web → Answer × Web
unfolding match_mutation
route_event deps r hash e w =
    let actor = read_actor e.data_read in
    let (match, suppression) =
      match_mutation (echo_of (or_else actor "") hash e) r.now_ms w.suppression in
    if is_bot deps actor
    then after_match deps r hash e match (with_suppression suppression w)
    else store_and_publish deps.artifact_store r hash e w

abbrev pub route_mapping : WebhookDeps → Request → String → Mapping → Web → Answer × Web
route_mapping deps r hash (mapped e) w = route_event deps r hash e w
route_mapping deps r hash (unsupported t a) w =
    (outcome not_supported (some r.delivery) r.event, publish (rejected_event r.delivery t a) w)
route_mapping deps r hash thrown w = (failure, w)

abbrev pub is_replay : String → Option DedupRecord → Bool
is_replay hash none = false
is_replay hash (some d) = str_eq d.content_hash hash

module _ (hmac_hex : String → String → String) (sha256_hex : String → String)
    (parsers : Parsers) where
  abbrev pub is_signed : WebhookDeps → Request → Bool
  is_signed deps r =
      truthy r.signature && verify_github_signature hmac_hex r.body r.signature deps.secret

  -- The steps behind the signature.
  unfoldable pub handle_signed : WebhookDeps → Request → Web → Answer × Web
  unfolding lookup remember map_github_event route_event
  handle_signed deps r w =
      let hash = sha256_hex r.body in
      let (prior, cleaned) = lookup r.delivery r.now_ms w.dedup in
      let looked = with_dedup cleaned w in
      let remembered = with_dedup (remember r.delivery hash r.now_ms cleaned) w in
      let mapping = map_github_event parsers r.event r.delivery r.body r.now_iso in
      if is_replay hash prior
      then (
        outcome deduped (some r.delivery) r.event,
        publish (deduped_replay r.delivery hash) looked,
      )
      else route_mapping deps r hash mapping remembered

  -- `handleGithubWebhook`.
  unfoldable pub handle_github_webhook : WebhookDeps → Request → Web → Answer × Web
  unfolding verify_github_signature handle_signed
  handle_github_webhook deps r w =
      if not (is_signed deps r)
      then (outcome rejected none r.event, publish (rejected_signature r.delivery) w)
      else handle_signed deps r w
