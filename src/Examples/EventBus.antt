-- ===== src/Examples/EventBus.antt =====
-- Publications on concrete buses.
use github_auto_dev.Base.{
  ℕ, here, there, String, ◌≡◌, ◌≢◌, refl, inr, eq_iff, none, some, [], ◌∷◌, arith,
}
use github_auto_dev.Base.Dict
use github_auto_dev.Schemas.StableJson.{null}
use github_auto_dev.EventBus.{
  plain, BusMessage, Consumer, default_retry_policy, Bus, unread, publish,
}
use github_auto_dev.EventBus.Ending.{Accepts}
use github_auto_dev.EventBus.Draining.{all_errors, publish_ends}
use github_auto_dev.EventBus.Endless.{endless}

abbrev stamp : Bus → String × ℕ
stamp b = ("id", 0)

abbrev message : BusMessage
message = record {
  id = "m1";
  topic = "work";
  payload = plain null;
  headers = [];
  trace_id = none;
  at_ms = 0;
}

abbrev failing : Consumer
failing = record { name = "failing"; consume = λ m k. some "broken" }

abbrev taking : Consumer
taking = record { name = "taking"; consume = λ m k. none }

abbrev bus_with : Consumer → Bus
bus_with letters = record {
  queues = [];
  consumers = ("work", failing ∷ []) ∷ ("dlq", letters ∷ []) ∷ [];
  retry = default_retry_policy;
  dlq_topic = "dlq";
  failures = [];
}

takes : Accepts default_retry_policy taking
takes m = (0, omega arith, refl)

not_dead : ◌≢◌ {A = String} "work" "dlq"
not_dead h = cc ((eq_iff "work" "dlq").1 h)

publish_ends_example :
    (after : Bus) × (publish stamp 4 message (bus_with taking) ≡ some after)
    × ((unread "work" after ≡ 0)
        × (after.failures ≡ all_errors default_retry_policy "work" (failing ∷ []) (message ∷ [])))
unfolding Dict.get
publish_ends_example =
    publish_ends stamp 4 message (bus_with taking) failing [] (omega arith) refl not_dead
      (takes, tt) (inr refl)

-- The failing consumers are behind others that take the message.
abbrev mixed_bus : Bus
mixed_bus = record {
  queues = [];
  consumers = ("work", taking ∷ failing ∷ []) ∷ ("dlq", taking ∷ failing ∷ taking ∷ []) ∷ [];
  retry = default_retry_policy;
  dlq_topic = "dlq";
  failures = [];
}

endless_example : publish stamp 1000 message mixed_bus ≡ none
unfolding Dict.get
endless_example =
    endless stamp 1000 message mixed_bus failing failing (there (here refl))
      (λ m k. ("broken", refl)) (there (here refl)) (λ m k. ("broken", refl))
