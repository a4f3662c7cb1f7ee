-- ===== src/Webhooks/Echo.antt =====
-- Which events are recognised as the program's own.
use github_auto_dev.Base.{
  String, ◌≡◌, ◌≢◌, refl, inl, inr, eq_iff, none, Bool, not, if◌then◌else◌, Bool-cases, str_eq,
}
use github_auto_dev.Webhooks.Events.{
  Payload, Validated, invalid, valid, Parsers, CloudEventEnvelope, Mapping, mapped, unsupported,
  thrown, map_issues, map_synchronize, map_run, map_github_event, unsupported_action,
  is_synchronize,
}
use github_auto_dev.Webhooks.Route.{
  Request, Web, WebhookDeps, read_actor, route_event, store_and_publish,
}

abbrev pub NoActor : Validated → Type 0
NoActor invalid = Unit
NoActor (valid p) = (p.comment_user ≡ none) × (p.sender ≡ none)

-- Zod keeps only the fields that a schema names, and these name neither a comment nor a sender.
pub record StripsActors (parsers : Parsers) : Type 0 where
  pub opened : (body : String) → NoActor (parsers.issue_opened body)
  pub labeled : (body : String) → NoActor (parsers.issues_labeled body)
  pub synchronize : (body : String) → NoActor (parsers.pull_request_synchronize body)
  pub completed : (body : String) → NoActor (parsers.workflow_run_completed body)

abbrev NoActorIn : Mapping → Type 0
NoActorIn (mapped e) = read_actor e.data_read ≡ none
NoActorIn (unsupported t a) = Unit
NoActorIn thrown = Unit

actor_none : (p : Payload) → NoActor (valid p) → read_actor p ≡ none
actor_none p h = rw (h.0, h.1) refl

either : (b : Bool) (m n : Mapping) → NoActorIn m → NoActorIn n → NoActorIn (if b then m else n)
either b m n h k = elim (Bool-cases b) [ inl t ↦ rw t h | inr f ↦ rw f k ]

unsupported_quiet :
    (parsers : Parsers) (event body : String) → NoActorIn (unsupported_action parsers event body)
unsupported_quiet parsers event body = elim (Bool-cases (parsers.is_null body)) [
  | inl t ↦ rw t tt
  | inr f ↦ rw f tt
]

map_issues-NoActor :
    (delivery time body event : String) (parsers : Parsers) (v w : Validated)
    → NoActor v
    → NoActor w
    → NoActorIn (map_issues delivery time (unsupported_action parsers event body) v w)
map_issues-NoActor delivery time body event parsers (valid p) w h k = actor_none p h
map_issues-NoActor delivery time body event parsers invalid (valid p) h k = actor_none p k
map_issues-NoActor delivery time body event parsers invalid invalid h k =
    unsupported_quiet parsers event body

map_synchronize-NoActor :
    (delivery time : String) (v : Validated)
    → NoActor v
    → NoActorIn (map_synchronize delivery time v)
map_synchronize-NoActor delivery time invalid h = tt
map_synchronize-NoActor delivery time (valid p) h = actor_none p h

map_run-NoActor :
    (delivery time : String) (v : Validated) → NoActor v → NoActorIn (map_run delivery time v)
map_run-NoActor delivery time invalid h = tt
map_run-NoActor delivery time (valid p) h = actor_none p h

-- No event but one of a comment names its actor.
map_github_event-NoActor :
    (parsers : Parsers) (event delivery body time : String)
    → StripsActors parsers
    → event ≢ "issue_comment"
    → NoActorIn (map_github_event parsers event delivery body time)
unfolding map_github_event
map_github_event-NoActor parsers event delivery body time strips other =
    either (not (parsers.is_json body)) _ _ tt (
      either (str_eq event "issues") _ _
        (map_issues-NoActor delivery time body "issues" parsers (parsers.issue_opened body)
          (parsers.issues_labeled body) (strips.opened body) (strips.labeled body))
        (elim (Bool-cases (str_eq event "issue_comment")) [
          | inl t ↦ absurd (other ((eq_iff event "issue_comment").0 t))
          | inr n ↦ rw n (
              either (str_eq event "pull_request") _ _
                (either (is_synchronize (parsers.action body)) _ _
                  (map_synchronize-NoActor delivery time (parsers.pull_request_synchronize body)
                    (strips.synchronize body))
                  (unsupported_quiet parsers "pull_request" body))
                (either (str_eq event "workflow_run") _ _
                  (map_run-NoActor delivery time (parsers.workflow_run_completed body)
                    (strips.completed body))
                  tt))
        ]))

quiet_mapped :
    (m : Mapping) (e : CloudEventEnvelope)
    → NoActorIn m
    → m ≡ mapped e
    → read_actor e.data_read ≡ none
quiet_mapped (mapped f) e h is = let same : f ≡ e = cc in rw (← same) h
quiet_mapped (unsupported t a) e h is = cc
quiet_mapped thrown e h is = cc

-- An event other than one of a comment is never taken for the program's own: whoever caused it, and
-- whatever mutations were recorded, it is stored and published like any other.
pub never_suppressed :
    (parsers : Parsers) (deps : WebhookDeps) (r : Request) (hash : String) (e : CloudEventEnvelope)
    (w : Web)
    → StripsActors parsers
    → r.event ≢ "issue_comment"
    → map_github_event parsers r.event r.delivery r.body r.now_iso ≡ mapped e
    → route_event deps r hash e w ≡ store_and_publish deps.artifact_store r hash e w
unfolding route_event
never_suppressed parsers deps r hash e w strips other is =
    let quiet =
      quiet_mapped _ e
        (map_github_event-NoActor parsers r.event r.delivery r.body r.now_iso strips other) is in
    rw quiet refl
