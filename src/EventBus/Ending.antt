-- ===== src/EventBus/Ending.antt =====
-- How much fuel a publication needs, and what it comes to, where the dead letters are accepted.
use github_auto_dev.Base.{
  ℕ, zero, suc, ◌+◌, ◌≤◌, ◌<◌, String, ◌≡◌, ◌≢◌, refl, sym, ap, ◌∙◌, ◌⊎◌, inl, inr, Option, none,
  some, true, false, List, [], ◌∷◌, ◌++◌, arith, Option-cases, leb, All,
}
use github_auto_dev.Base.Dict
use github_auto_dev.EventBus.{
  BusMessage, Consumer, RetryPolicy, Bus, queue_of, consumers_of, with_queue, tries_from, tries,
  deliver_all, drain_at, drain,
}
use github_auto_dev.EventBus.Endless.{queue_of-with_queue}

-- A consumer that takes every message within the attempts that the policy allows.
abbrev pub Accepts : RetryPolicy → Consumer → Type 0
Accepts r c = (m : BusMessage) → (k : ℕ) × (k < r.max_attempts) × (c.consume m (suc k) ≡ none)

tries_from_accept :
    (r : RetryPolicy) (c : Consumer) (m : BusMessage) (rest attempt k : ℕ)
    → attempt + rest ≡ r.max_attempts
    → attempt ≤ k
    → k < r.max_attempts
    → c.consume m (suc k) ≡ none
    → (tries_from r c m rest attempt).delivered ≡ true
unfolding tries_from
tries_from_accept r c m zero attempt k e lo hi h = absurd (omega arith)
tries_from_accept r c m (suc rest) attempt k e lo hi h =
    elim (Option-cases (c.consume m (suc attempt))) [
      | inl took ↦ rw took refl
      | inr (cause, failed) ↦
          let apart : attempt ≢ k = λ same. cc (rw (← same) at h) in
          let later =
            tries_from_accept r c m rest (suc attempt) k (omega arith) (omega (arith, apart)) hi
              h in
          let more : leb r.max_attempts (suc attempt) ≡ false = ground arith in
          rw (failed, more) later
    ]

pub tries_accept :
    (r : RetryPolicy) (c : Consumer) (m : BusMessage) → Accepts r c → (tries r c m).delivered ≡ true
unfolding tries
tries_accept r c m a =
    let (k, hi, h) = a m in
    tries_from_accept r c m r.max_attempts 0 k (omega arith) (omega arith) hi h

-- Dead letters do not pile up: nobody reads them, or none is unread.
abbrev pub IsReady : Bus → Type 0
IsReady b = (consumers_of b.dlq_topic b ≡ []) ⊎ (queue_of b.dlq_topic b ≡ [])

-- What a delivery on a topic leaves as it was.
pub record Kept (topic : String) (b after : Bus) : Type 0 where
  pub consumers : after.consumers ≡ b.consumers
  pub retry : after.retry ≡ b.retry
  pub dlq_topic : after.dlq_topic ≡ b.dlq_topic
  pub queue : queue_of topic after ≡ queue_of topic b

pub Accepts-Kept :
    (b after : Bus) (topic : String)
    → Kept topic b after
    → All (Accepts b.retry) (consumers_of b.dlq_topic b)
    → All (Accepts after.retry) (consumers_of after.dlq_topic after)
Accepts-Kept b after topic k h = rw (k.retry, k.dlq_topic, k.consumers) h

pub queue_of-other :
    (t u : String) (ms : List BusMessage) (b : Bus)
    → t ≢ u
    → queue_of t (with_queue u ms b) ≡ queue_of t b
queue_of-other t u ms b other = rw (Dict.get-set_ne u t ms b.queues (λ e. other (sym e))) refl

module _ (stamp : Bus → String × ℕ) where
  deliver_all_accept :
      (drained : Bus → Option Bus) (topic : String) (m : BusMessage) (cs : List Consumer) (b : Bus)
      → All (Accepts b.retry) cs
      → deliver_all stamp drained topic m cs b ≡ some b
  deliver_all_accept drained topic m [] b a = refl
  deliver_all_accept drained topic m (c ∷ cs) b a =
      rw (tries_accept b.retry c m a.0) (deliver_all_accept drained topic m cs b a.1)

  drain_at_nobody :
      (again drained : Bus → Option Bus) (topic : String) (ms : List BusMessage) (b : Bus)
      → drain_at stamp again drained topic ms [] b ≡ some b
  drain_at_nobody again drained topic [] b = refl
  drain_at_nobody again drained topic (m ∷ ms) b = refl

  drain_nobody :
      (fuel : ℕ) (topic : String) (b : Bus)
      → consumers_of topic b ≡ []
      → drain stamp (suc fuel) topic b ≡ some b
  unfolding drain
  drain_nobody fuel topic b e = rw e (
      drain_at_nobody (λ b'. drain stamp fuel topic b') (λ b'. drain stamp fuel b'.dlq_topic b')
        topic (queue_of topic b) b)

  pub drain_empty :
      (fuel : ℕ) (topic : String) (b : Bus)
      → queue_of topic b ≡ []
      → drain stamp (suc fuel) topic b ≡ some b
  unfolding drain
  drain_empty fuel topic b e = rw e refl

  -- How one dead letter is done with.
  pub record DeadLetterEnds (fuel : ℕ) (topic : String) (x : BusMessage) (b : Bus) : Type 0 where
    pub after : Bus
    pub ends :
        drain stamp fuel b.dlq_topic (with_queue b.dlq_topic (queue_of b.dlq_topic b ++ x ∷ []) b)
        ≡ some after
    pub kept : Kept topic b after
    pub ready : IsReady after
    pub failures : after.failures ≡ b.failures

  pub dead_letter_ends :
      (fuel : ℕ) (topic : String) (x : BusMessage) (b : Bus) (cs : List Consumer)
      → consumers_of b.dlq_topic b ≡ cs
      → topic ≢ b.dlq_topic
      → All (Accepts b.retry) cs
      → IsReady b
      → DeadLetterEnds (suc (suc fuel)) topic x b
  unfolding drain
  dead_letter_ends fuel topic x b [] e other accepts ready = record {
    after = with_queue b.dlq_topic (queue_of b.dlq_topic b ++ x ∷ []) b;
    ends =
        drain_nobody (suc fuel) b.dlq_topic
          (with_queue b.dlq_topic (queue_of b.dlq_topic b ++ x ∷ []) b) e;
    kept = record {
      consumers = refl;
      retry = refl;
      dlq_topic = refl;
      queue = queue_of-other topic b.dlq_topic _ b other;
    };
    ready = inl e;
    failures = refl;
  }
  dead_letter_ends fuel topic x b (c ∷ cs) e other accepts ready =
      let none_unread : queue_of b.dlq_topic b ≡ [] = elim ready [ inl n ↦ cc | inr q ↦ q ] in
      let pushed = with_queue b.dlq_topic (queue_of b.dlq_topic b ++ x ∷ []) b in
      let done = with_queue b.dlq_topic [] pushed in
      let one : queue_of b.dlq_topic pushed ≡ x ∷ [] =
        queue_of-with_queue b.dlq_topic (queue_of b.dlq_topic b ++ x ∷ []) b
        ∙ ap (λ q. q ++ x ∷ []) none_unread in
      let no_more : queue_of b.dlq_topic done ≡ [] = queue_of-with_queue b.dlq_topic [] pushed in
      record {
        after = done;
        ends =
            rw
              (
                one,
                e,
                deliver_all_accept (λ b'. drain stamp (suc fuel) b'.dlq_topic b') b.dlq_topic x
                    (c ∷ cs) done accepts,
              )
              (drain_empty fuel b.dlq_topic done no_more);
        kept = record {
          consumers = refl;
          retry = refl;
          dlq_topic = refl;
          queue =
              queue_of-other topic b.dlq_topic [] pushed other
              ∙ queue_of-other topic b.dlq_topic (queue_of b.dlq_topic b ++ x ∷ []) b other;
        };
        ready = inr no_more;
        failures = refl;
      }
