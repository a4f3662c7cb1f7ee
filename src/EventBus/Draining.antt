-- ===== src/EventBus/Draining.antt =====
-- What a publication comes to, where the dead letters are accepted, and the fuel that it needs.
use mathlib.Core.List.{append-nil, append_assoc}
use github_auto_dev.Base.{
  ℕ, zero, suc, ◌+◌, ◌≤◌, String, ◌≡◌, ◌≢◌, refl, sym, ap, ◌∙◌, inl, inr, Option, some, Bool, true,
  false, List, [], ◌∷◌, ◌++◌, arith, Bool-cases, if◌then◌else◌, All, length, length-append,
}
use github_auto_dev.EventBus.{
  BusMessage, Consumer, RetryPolicy, DeliveryError, Bus, Tries, queue_of, consumers_of, unread,
  with_queue, with_failure, error_of, tries, push, dead, settle, deliver_all, drain, publish,
}
use github_auto_dev.EventBus.Endless.{queue_of-with_queue}
use github_auto_dev.EventBus.Ending.{
  Accepts, IsReady, Kept, Accepts-Kept, queue_of-other, dead_letter_ends,
}

-- What the failure listeners are told of a message, and of some.
abbrev pub errors_of : RetryPolicy → String → List Consumer → BusMessage → List DeliveryError
errors_of r topic [] m = []
errors_of r topic (c ∷ cs) m =
    let rest = errors_of r topic cs m in
    if (tries r c m).delivered then rest else error_of topic m (tries r c m) ∷ rest

abbrev pub all_errors : RetryPolicy → String → List Consumer → List BusMessage → List DeliveryError
all_errors r topic cs [] = []
all_errors r topic cs (m ∷ ms) = errors_of r topic cs m ++ all_errors r topic cs ms

errors_cons :
    (xs es : List DeliveryError) (e : DeliveryError) (b : Bool)
    → (xs ++ (if b then [] else e ∷ [])) ++ es ≡ xs ++ (if b then es else e ∷ es)
errors_cons xs es e true = ap (λ ys. ys ++ es) (append-nil xs)
errors_cons xs es e false = append_assoc xs (e ∷ []) es

module _ (stamp : Bus → String × ℕ) where
  -- How a message, or some, are done with.
  record Delivered (topic : String) (b : Bus) (errors : List DeliveryError) (result : Option Bus)
      : Type 0 where
    after : Bus
    ends : result ≡ some after
    kept : Kept topic b after
    ready : IsReady after
    failures : after.failures ≡ b.failures ++ errors

  record Emptied (topic : String) (b : Bus) (errors : List DeliveryError) (result : Option Bus)
      : Type 0 where
    after : Bus
    ends : result ≡ some after
    empty : queue_of topic after ≡ []
    failures : after.failures ≡ b.failures ++ errors

  settle_ends :
      (fuel : ℕ) (topic : String) (m : BusMessage) (t : Tries) (b : Bus)
      → topic ≢ b.dlq_topic
      → All (Accepts b.retry) (consumers_of b.dlq_topic b)
      → IsReady b
      → Delivered topic b
          (if t.delivered then [] else error_of topic m t ∷ [])
          (settle stamp (λ b'. drain stamp (suc (suc fuel)) b'.dlq_topic b') topic m t b)
  settle_ends fuel topic m t b other accepts ready = elim (Bool-cases t.delivered) [
    | inl took ↦ rw took (record {
      after = b;
      ends = refl;
      kept = record { consumers = refl; retry = refl; dlq_topic = refl; queue = refl };
      ready = ready;
      failures = sym (append-nil b.failures);
    })
    | inr gave_up ↦
        let told = with_failure (error_of topic m t) b in
        let r =
          dead_letter_ends stamp fuel topic (dead stamp topic m t told) told
            (consumers_of b.dlq_topic b) refl other accepts ready in
        rw gave_up (record {
          after = r.after;
          ends = r.ends;
          kept = record {
            consumers = r.kept.consumers;
            retry = r.kept.retry;
            dlq_topic = r.kept.dlq_topic;
            queue = r.kept.queue;
          };
          ready = r.ready;
          failures = r.failures;
        })
  ]

  deliver_all_ends :
      (fuel : ℕ) (topic : String) (m : BusMessage) (cs : List Consumer) (b : Bus)
      → topic ≢ b.dlq_topic
      → All (Accepts b.retry) (consumers_of b.dlq_topic b)
      → IsReady b
      → Delivered topic b
          (errors_of b.retry topic cs m)
          (deliver_all stamp (λ b'. drain stamp (suc (suc fuel)) b'.dlq_topic b') topic m cs b)
  deliver_all_ends fuel topic m [] b other accepts ready = record {
    after = b;
    ends = refl;
    kept = record { consumers = refl; retry = refl; dlq_topic = refl; queue = refl };
    ready = ready;
    failures = sym (append-nil b.failures);
  }
  deliver_all_ends fuel topic m (c ∷ cs) b other accepts ready =
      let one = settle_ends fuel topic m (tries b.retry c m) b other accepts ready in
      let rest =
        deliver_all_ends fuel topic m cs one.after (rw one.kept.dlq_topic other)
          (Accepts-Kept b one.after topic one.kept accepts) one.ready in
      record {
        after = rest.after;
        ends = rw one.ends rest.ends;
        kept = record {
          consumers = rest.kept.consumers ∙ one.kept.consumers;
          retry = rest.kept.retry ∙ one.kept.retry;
          dlq_topic = rest.kept.dlq_topic ∙ one.kept.dlq_topic;
          queue = rest.kept.queue ∙ one.kept.queue;
        };
        ready = rest.ready;
        failures =
            rest.failures
            ∙ rw (one.failures, one.kept.retry)
                (errors_cons b.failures (errors_of b.retry topic cs m)
                  (error_of topic m (tries b.retry c m)) (tries b.retry c m).delivered);
      }

  drain_ends :
      (fuel : ℕ) (topic : String) (ms : List BusMessage) (b : Bus) (c : Consumer)
      (cs : List Consumer)
      → length ms + 3 ≤ fuel
      → queue_of topic b ≡ ms
      → consumers_of topic b ≡ c ∷ cs
      → topic ≢ b.dlq_topic
      → All (Accepts b.retry) (consumers_of b.dlq_topic b)
      → IsReady b
      → Emptied topic b (all_errors b.retry topic (c ∷ cs) ms) (drain stamp fuel topic b)
  unfolding drain
  drain_ends zero topic ms b c cs enough eq ec other accepts ready = absurd (omega arith)
  drain_ends (suc zero) topic ms b c cs enough eq ec other accepts ready = absurd (omega arith)
  drain_ends (suc (suc zero)) topic ms b c cs enough eq ec other accepts ready =
      absurd (omega arith)
  drain_ends (suc (suc (suc fuel))) topic [] b c cs enough eq ec other accepts ready = record {
    after = b;
    ends = rw eq refl;
    empty = eq;
    failures = sym (append-nil b.failures);
  }
  drain_ends (suc (suc (suc fuel))) topic (m ∷ ms) b c cs enough eq ec other accepts ready =
      let taken = with_queue topic ms b in
      let apart : b.dlq_topic ≢ topic = λ e. other (sym e) in
      let ready' : IsReady taken = elim ready [
        | inl e ↦ inl e
        | inr q ↦ inr (queue_of-other b.dlq_topic topic ms b apart ∙ q)
      ] in
      let one = deliver_all_ends fuel topic m (c ∷ cs) taken other accepts ready' in
      let rest =
        drain_ends (suc (suc fuel)) topic ms one.after c cs (omega arith)
          (one.kept.queue ∙ queue_of-with_queue topic ms b) (rw one.kept.consumers ec)
          (rw one.kept.dlq_topic other) (Accepts-Kept taken one.after topic one.kept accepts)
          one.ready in
      record {
        after = rest.after;
        ends = rw (eq, ec, one.ends) rest.ends;
        empty = rest.empty;
        failures =
            rest.failures
            ∙ rw (one.failures, one.kept.retry)
                (append_assoc b.failures (errors_of b.retry topic (c ∷ cs) m)
                  (all_errors b.retry topic (c ∷ cs) ms));
      }

  -- Where every consumer of the dead letters takes them within the allowed attempts and none is
  -- unread, a message that is published on another topic that has consumers is done with on fuel of
  -- four more than what is unread on it. Then nothing is unread on the topic, and the failure listeners
  -- were told exactly the deliveries that were given up, of the older messages and of the new one.
  pub publish_ends :
      (fuel : ℕ) (m : BusMessage) (b : Bus) (c : Consumer) (cs : List Consumer)
      → unread m.topic b + 4 ≤ fuel
      → consumers_of m.topic b ≡ c ∷ cs
      → m.topic ≢ b.dlq_topic
      → All (Accepts b.retry) (consumers_of b.dlq_topic b)
      → IsReady b
      → (after : Bus) × (publish stamp fuel m b ≡ some after)
        × ((unread m.topic after ≡ 0)
            × (after.failures
                ≡ b.failures ++ all_errors b.retry m.topic (c ∷ cs) (queue_of m.topic b ++ m ∷ [])))
  unfolding publish
  publish_ends fuel m b c cs enough ec other accepts ready =
      let ms = queue_of m.topic b ++ m ∷ [] in
      let longer = length-append (queue_of m.topic b) (m ∷ []) in
      let apart : b.dlq_topic ≢ m.topic = λ e. other (sym e) in
      let ready' : IsReady (push m b) = elim ready [
        | inl e ↦ inl e
        | inr q ↦ inr (queue_of-other b.dlq_topic m.topic ms b apart ∙ q)
      ] in
      let done =
        drain_ends fuel m.topic ms (push m b) c cs (omega arith) (queue_of-with_queue m.topic ms b)
          ec other accepts ready' in
      (done.after, done.ends, (ap length done.empty, done.failures))
