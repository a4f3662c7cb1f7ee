-- ===== src/EventBus.antt =====
-- packages/eventbus/src/bus.ts, the bus in memory. A consumer is a function of the message and of
-- how often it was tried, which returns nothing or throws a cause, and does not itself use the bus.
-- One `publish` runs at a time. `stamp` is the fresh id and the time that a message is given.

pub mod Endless
pub mod Ending
pub mod Draining
use github_auto_dev.Base.{
  ℕ, zero, suc, ◌-◌, ◌*◌, leb, String, Option, none, some, Bool, true, false, List, [], ◌∷◌, ◌++◌,
  if◌then◌else◌, or_else, str_eq, length,
}
use github_auto_dev.Base.Dict
use github_auto_dev.Schemas.StableJson.{Json}

-- A payload, or that of a dead letter: the whole message that was given up, and the last cause.
pub data Payload : Type 0 where
  plain : Json → Payload
  dead_letter :
      (id : String)
      → (topic : String) → Payload
      → (headers : List (String × String)) → (trace_id : Option String) → (at_ms : ℕ)
      → (last_cause : String) → Payload

pub record BusMessage : Type 0 where
  pub id : String
  pub topic : String
  pub payload : Payload
  pub headers : List (String × String)
  pub trace_id : Option String
  pub at_ms : ℕ

-- A consumer, known by its name, since functions are told apart by identity.
pub record Consumer : Type 0 where
  pub name : String
  pub consume : BusMessage → ℕ → Option String

pub record RetryPolicy : Type 0 where
  pub max_attempts : ℕ
  pub base_delay_ms : ℕ
  pub max_delay_ms : ℕ
  pub factor : ℕ

abbrev pub default_retry_policy : RetryPolicy
default_retry_policy = record {
  max_attempts = 5;
  base_delay_ms = 100;
  max_delay_ms = 5000;
  factor = 2;
}

pub record DeliveryError : Type 0 where
  pub topic : String
  pub message_id : String
  pub attempt : ℕ
  pub last_cause : Option String

-- The bus: its queues and consumers by topic, and what its failure listeners were told.
pub record Bus : Type 0 where
  pub queues : List (String × List BusMessage)
  pub consumers : List (String × List Consumer)
  pub retry : RetryPolicy
  pub dlq_topic : String
  pub failures : List DeliveryError

abbrev pub queue_of : String → Bus → List BusMessage
queue_of topic b = or_else (Dict.get topic b.queues) []

abbrev pub consumers_of : String → Bus → List Consumer
consumers_of topic b = or_else (Dict.get topic b.consumers) []

-- `unread`.
abbrev pub unread : String → Bus → ℕ
unread topic b = length (queue_of topic b)

abbrev pub with_queue : String → List BusMessage → Bus → Bus
with_queue topic ms b = record {
  queues = Dict.set topic ms b.queues;
  consumers = b.consumers;
  retry = b.retry;
  dlq_topic = b.dlq_topic;
  failures = b.failures;
}

abbrev with_consumers : String → List Consumer → Bus → Bus
with_consumers topic cs b = record {
  queues = b.queues;
  consumers = Dict.set topic cs b.consumers;
  retry = b.retry;
  dlq_topic = b.dlq_topic;
  failures = b.failures;
}

abbrev pub with_failure : DeliveryError → Bus → Bus
with_failure e b = record {
  queues = b.queues;
  consumers = b.consumers;
  retry = b.retry;
  dlq_topic = b.dlq_topic;
  failures = b.failures ++ e ∷ [];
}

-- `set.add` and `set.delete`.
abbrev is_there : String → List Consumer → Bool
is_there name [] = false
is_there name (c ∷ cs) = let rest = is_there name cs in if str_eq c.name name then true else rest

abbrev taken_out : String → List Consumer → List Consumer
taken_out name [] = []
taken_out name (c ∷ cs) =
    let rest = taken_out name cs in if str_eq c.name name then rest else c ∷ rest

unfoldable pub subscribe : String → Consumer → Bus → Bus
unfolding Dict.get Dict.set
subscribe topic c b =
    let cs = consumers_of topic b in
    with_consumers topic (if is_there c.name cs then cs else cs ++ c ∷ []) b

-- What `subscribe` returns, which ends the subscription.
unfoldable pub unsubscribe : String → Consumer → Bus → Bus
unfolding Dict.get Dict.set
unsubscribe topic c b = with_consumers topic (taken_out c.name (consumers_of topic b)) b

unfoldable pub power : ℕ → ℕ → ℕ
power n zero = 1
power n (suc k) = n * power n k

-- The delay before the next attempt.
unfoldable pub delay_after : RetryPolicy → ℕ → ℕ
unfolding power
delay_after r attempt =
    let grown = r.base_delay_ms * power r.factor (attempt - 1) in
    if leb grown r.max_delay_ms then grown else r.max_delay_ms

-- How a delivery went: how many attempts were made, the delays between them, and the last cause, which
-- is missing when an attempt succeeded.
pub record Tries : Type 0 where
  pub attempt : ℕ
  pub delays : List ℕ
  pub delivered : Bool
  pub last_cause : Option String

abbrev slept : ℕ → Tries → Tries
slept ms t = record {
  attempt = t.attempt;
  delays = ms ∷ t.delays;
  delivered = t.delivered;
  last_cause = t.last_cause;
}

-- What follows an attempt: `later` are the attempts behind it, for the last of which `broke` is true.
abbrev after_attempt : RetryPolicy → ℕ → Option String → Tries → Tries
after_attempt r attempt none later = record {
  attempt = attempt;
  delays = [];
  delivered = true;
  last_cause = none;
}
after_attempt r attempt (some cause) later =
    if leb r.max_attempts attempt
    then record { attempt = attempt; delays = []; delivered = false; last_cause = some cause }
    else slept (delay_after r attempt) later

-- The loop of `deliverWithRetry` behind `attempt` attempts, of which `rest` are left.
unfoldable pub tries_from : RetryPolicy → Consumer → BusMessage → ℕ → ℕ → Tries
unfolding delay_after
tries_from r c m zero attempt = record {
  attempt = attempt;
  delays = [];
  delivered = false;
  last_cause = none;
}
tries_from r c m (suc rest) attempt =
    let later = tries_from r c m rest (suc attempt) in
    after_attempt r (suc attempt) (c.consume m (suc attempt)) later

unfoldable pub tries : RetryPolicy → Consumer → BusMessage → Tries
unfolding tries_from
tries r c m = tries_from r c m r.max_attempts 0

-- `MaxAttemptsExceededError`.
abbrev pub error_of : String → BusMessage → Tries → DeliveryError
error_of topic m t = record {
  topic = topic;
  message_id = m.id;
  attempt = t.attempt;
  last_cause = t.last_cause;
}

-- A message is put at the end of the queue of its topic.
abbrev pub push : BusMessage → Bus → Bus
push m b = with_queue m.topic (queue_of m.topic b ++ m ∷ []) b

abbrev pub run {ℓ} : {A : Type ℓ} → Option A → (A → Option A) → Option A
run none f = none
run (some a) f = f a

module _ (stamp : Bus → String × ℕ) where
  -- The dead letter of a message that was given up.
  abbrev pub dead : String → BusMessage → Tries → Bus → BusMessage
  dead topic m t b = record {
    id = (stamp b).0;
    topic = b.dlq_topic;
    payload =
        dead_letter m.id m.topic m.payload m.headers m.trace_id m.at_ms
          (or_else t.last_cause "null");
    headers = ("x-origin-topic", topic) ∷ ("x-original-id", m.id) ∷ [];
    trace_id = m.trace_id;
    at_ms = (stamp b).1;
  }

  -- What `deliverWithRetry` does when the loop ended. `drained` drains the dead letters.
  abbrev pub settle : (Bus → Option Bus) → String → BusMessage → Tries → Bus → Option Bus
  settle drained topic m t b =
      let told = with_failure (error_of topic m t) b in
      if t.delivered then some b else drained (push (dead topic m t told) told)

  -- The loop over the consumers.
  abbrev pub deliver_all :
      (Bus → Option Bus) → String → BusMessage → List Consumer → Bus → Option Bus
  deliver_all drained topic m [] b = some b
  deliver_all drained topic m (c ∷ cs) b =
      run (settle drained topic m (tries b.retry c m) b) (deliver_all drained topic m cs)

  -- The loop of `drain`, where `again` is the rest of it.
  abbrev pub drain_at :
      (Bus → Option Bus)
      → (Bus → Option Bus)
      → String
      → List BusMessage
      → List Consumer
      → Bus
      → Option Bus
  drain_at again drained topic [] cs b = some b
  drain_at again drained topic (m ∷ ms) [] b = some b
  drain_at again drained topic (m ∷ ms) (c ∷ cs) b =
      run (deliver_all drained topic m (c ∷ cs) (with_queue topic ms b)) again

  -- `drain`, with fuel for its loop and for the dead letters that are published in it. Nothing comes
  -- back when the fuel ends first.
  unfoldable pub drain : ℕ → String → Bus → Option Bus
  unfolding Dict.get Dict.set tries
  drain zero topic b = none
  drain (suc fuel) topic b =
      drain_at (λ b'. drain fuel topic b') (λ b'. drain fuel b'.dlq_topic b') topic
        (queue_of topic b) (consumers_of topic b) b

  -- `publish` of a message that has an id and a time.
  unfoldable pub publish : ℕ → BusMessage → Bus → Option Bus
  unfolding drain
  publish fuel m b = drain fuel m.topic (push m b)
