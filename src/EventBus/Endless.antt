-- ===== src/EventBus/Endless.antt =====
-- What a failing consumer of the dead letters does to the bus.
use github_auto_dev.Base.{
  ℕ, zero, suc, String, ◌≡◌, refl, ◌∙◌, In, here, there, Option, none, some, false, List, [], ◌∷◌,
  ◌++◌, Bool-cases, inl, inr, leb,
}
use github_auto_dev.Base.Dict
use github_auto_dev.EventBus.{
  BusMessage, Consumer, RetryPolicy, Bus, Tries, queue_of, consumers_of, with_queue, with_failure,
  error_of, tries_from, tries, push, dead, run, settle, deliver_all, drain_at, drain, publish,
}

-- A consumer that throws at every attempt.
abbrev pub AlwaysFails : Consumer → Type 0
AlwaysFails c = (m : BusMessage) (k : ℕ) → (cause : String) × (c.consume m k ≡ some cause)

tries_from_fail :
    (r : RetryPolicy) (c : Consumer) (m : BusMessage) (rest attempt : ℕ)
    → AlwaysFails c
    → (tries_from r c m rest attempt).delivered ≡ false
unfolding tries_from
tries_from_fail r c m zero attempt f = refl
tries_from_fail r c m (suc rest) attempt f =
    let later = tries_from_fail r c m rest (suc attempt) f in
    rw ((f m (suc attempt)).1) (elim (Bool-cases (leb r.max_attempts (suc attempt))) [
      | inl t ↦ rw t refl
      | inr n ↦ rw n later
    ])

pub tries_fail :
    (r : RetryPolicy) (c : Consumer) (m : BusMessage)
    → AlwaysFails c
    → (tries r c m).delivered ≡ false
unfolding tries
tries_fail r c m f = tries_from_fail r c m r.max_attempts 0 f

pub queue_of-with_queue :
    (t : String) (ms : List BusMessage) (b : Bus) → queue_of t (with_queue t ms b) ≡ ms
queue_of-with_queue t ms b = rw (Dict.get-set_self t ms b.queues) refl

data NotEmpty : List BusMessage → Type 0 where
  not_empty : {m : BusMessage} {ms : List BusMessage} → NotEmpty (m ∷ ms)

NotEmpty-append : (ms : List BusMessage) (m : BusMessage) → NotEmpty (ms ++ m ∷ [])
NotEmpty-append [] m = not_empty
NotEmpty-append (x ∷ xs) m = not_empty

-- What a delivery leaves as it was.
abbrev Same : Bus → Bus → Type 0
Same b after = (after.consumers ≡ b.consumers) × (after.dlq_topic ≡ b.dlq_topic)

abbrev KeepsConsumers : (Bus → Option Bus) → Type 0
KeepsConsumers f = (b after : Bus) → f b ≡ some after → Same b after

Same-trans : (a b c : Bus) → Same a b → Same b c → Same a c
Same-trans a b c s t = (t.0 ∙ s.0, t.1 ∙ s.1)

Same-In :
    (b after : Bus) (d : Consumer)
    → Same b after
    → In d (consumers_of b.dlq_topic b)
    → In d (consumers_of after.dlq_topic after)
Same-In b after d s i = rw (s.0, s.1) i

some-Same : (b after : Bus) → some b ≡ some after → Same b after
some-Same b after h = let e : b ≡ after = cc in rw e (refl, refl)

run-some :
    (o : Option Bus) (f : Bus → Option Bus) (after : Bus)
    → run o f ≡ some after
    → (a : Bus) × (o ≡ some a) × (f a ≡ some after)
run-some none f after h = cc
run-some (some a) f after h = (a, refl, h)

run-none : (o : Option Bus) (f : Bus → Option Bus) → o ≡ none → run o f ≡ none
run-none none f e = refl
run-none (some a) f e = cc

run_next :
    (o : Option Bus) (f : Bus → Option Bus) → ((a : Bus) → o ≡ some a → f a ≡ none) → run o f ≡ none
run_next none f h = refl
run_next (some a) f h = h a refl

module _ (stamp : Bus → String × ℕ) where
  settle-Same :
      (drained : Bus → Option Bus) (topic : String) (m : BusMessage) (t : Tries) (b after : Bus)
      → KeepsConsumers drained
      → settle stamp drained topic m t b ≡ some after
      → Same b after
  settle-Same drained topic m t b after k h = elim (Bool-cases t.delivered) [
    | inl took ↦ some-Same b after (rw took at h)
    | inr failed ↦ k _ after (rw failed at h)
  ]

  deliver_all-Same :
      (drained : Bus → Option Bus) (topic : String) (m : BusMessage) (cs : List Consumer)
      (b after : Bus)
      → KeepsConsumers drained
      → deliver_all stamp drained topic m cs b ≡ some after
      → Same b after
  deliver_all-Same drained topic m [] b after k h = some-Same b after h
  deliver_all-Same drained topic m (c ∷ cs) b after k h =
      let (a, first, rest) =
        run-some (settle stamp drained topic m (tries b.retry c m) b)
          (deliver_all stamp drained topic m cs) after h in
      Same-trans b a after (settle-Same drained topic m (tries b.retry c m) b a k first)
        (deliver_all-Same drained topic m cs a after k rest)

  drain_at-Same :
      (again drained : Bus → Option Bus) (topic : String) (ms : List BusMessage)
      (cs : List Consumer) (b after : Bus)
      → KeepsConsumers again
      → KeepsConsumers drained
      → drain_at stamp again drained topic ms cs b ≡ some after
      → Same b after
  drain_at-Same again drained topic [] cs b after ka k h = some-Same b after h
  drain_at-Same again drained topic (m ∷ ms) [] b after ka k h = some-Same b after h
  drain_at-Same again drained topic (m ∷ ms) (c ∷ cs) b after ka k h =
      let (a, first, rest) =
        run-some (deliver_all stamp drained topic m (c ∷ cs) (with_queue topic ms b)) again after
          h in
      Same-trans b a after
        (deliver_all-Same drained topic m (c ∷ cs) (with_queue topic ms b) a k first)
        (ka a after rest)

  drain-KeepsConsumers :
      (fuel : ℕ) (topic : String) → KeepsConsumers (λ b. drain stamp fuel topic b)
  unfolding drain
  drain-KeepsConsumers zero topic b after h = cc
  drain-KeepsConsumers (suc fuel) topic b after h =
      drain_at-Same _ _ topic (queue_of topic b) (consumers_of topic b) b after
        (drain-KeepsConsumers fuel topic)
        (λ b' after' h'. drain-KeepsConsumers fuel b'.dlq_topic b' after' h') h

  -- The bus when a message is given up.
  abbrev after_dead : String → BusMessage → Tries → Bus → Bus
  after_dead topic m t b =
      let told = with_failure (error_of topic m t) b in push (dead stamp topic m t told) told

  -- What is known of the dead letters with less fuel.
  abbrev Ends : ℕ → Consumer → Type 0
  Ends fuel d =
      (b : Bus)
      → In d (consumers_of b.dlq_topic b)
      → NotEmpty (queue_of b.dlq_topic b)
      → drain stamp fuel b.dlq_topic b ≡ none

  given_up :
      (fuel : ℕ) (topic : String) (m : BusMessage) (t : Tries) (b : Bus) (d : Consumer)
      → In d (consumers_of b.dlq_topic b)
      → Ends fuel d
      → drain stamp fuel b.dlq_topic (after_dead topic m t b) ≡ none
  given_up fuel topic m t b d e ends =
      let queued = with_failure (error_of topic m t) b in
      let q =
        queue_of-with_queue b.dlq_topic
          (queue_of b.dlq_topic queued ++ dead stamp topic m t queued ∷ []) queued in
      ends (after_dead topic m t b) e
        (rw q (NotEmpty-append (queue_of b.dlq_topic queued) (dead stamp topic m t queued)))

  -- Whatever the consumers before it do, a delivery comes to the one that fails, or does not end.
  deliver_all_fail :
      (fuel : ℕ) (topic : String) (m : BusMessage) (cs : List Consumer) (b : Bus) (c d : Consumer)
      → In c cs
      → AlwaysFails c
      → In d (consumers_of b.dlq_topic b)
      → Ends fuel d
      → deliver_all stamp (λ b'. drain stamp fuel b'.dlq_topic b') topic m cs b ≡ none
  deliver_all_fail fuel topic m [] b c d i fails e ends = elim i [ ]
  deliver_all_fail fuel topic m (x ∷ cs) b c d (here same) fails e ends =
      let failed = tries_fail b.retry x m (rw same at fails) in
      let drained = λ (b' : Bus). drain stamp fuel b'.dlq_topic b' in
      run-none (settle stamp drained topic m (tries b.retry x m) b)
        (deliver_all stamp drained topic m cs)
        (rw failed (given_up fuel topic m (tries b.retry x m) b d e ends))
  deliver_all_fail fuel topic m (x ∷ cs) b c d (there i) fails e ends =
      let drained = λ (b' : Bus). drain stamp fuel b'.dlq_topic b' in
      run_next (settle stamp drained topic m (tries b.retry x m) b)
        (deliver_all stamp drained topic m cs)
        (λ a first.
          let same =
            settle-Same drained topic m (tries b.retry x m) b a
              (λ b' after h. drain-KeepsConsumers fuel b'.dlq_topic b' after h) first in
          deliver_all_fail fuel topic m cs a c d i fails (Same-In b a d same e) ends)

  drain_at_fail :
      (fuel : ℕ) (topic : String) (b : Bus) (c d : Consumer) (cs : List Consumer)
      (ms : List BusMessage)
      → In c cs
      → AlwaysFails c
      → In d (consumers_of b.dlq_topic b)
      → Ends fuel d
      → NotEmpty ms
      → drain_at stamp
          (λ b'. drain stamp fuel topic b')
          (λ b'. drain stamp fuel b'.dlq_topic b')
          topic
          ms
          cs
          b
        ≡ none
  drain_at_fail fuel topic b c d cs [] i fails e ends n = elim n [ ]
  drain_at_fail fuel topic b c d [] (m ∷ ms) i fails e ends n = elim i [ ]
  drain_at_fail fuel topic b c d (x ∷ cs) (m ∷ ms) i fails e ends n =
      run-none
        (deliver_all stamp (λ b'. drain stamp fuel b'.dlq_topic b') topic m (x ∷ cs)
          (with_queue topic ms b))
        (λ b'. drain stamp fuel topic b')
        (deliver_all_fail fuel topic m (x ∷ cs) (with_queue topic ms b) c d i fails e ends)

  drain_fail : (fuel : ℕ) (d : Consumer) → AlwaysFails d → Ends fuel d
  unfolding drain
  drain_fail zero d f b e q = refl
  drain_fail (suc fuel) d f b e q =
      drain_at_fail fuel b.dlq_topic b d d (consumers_of b.dlq_topic b) (queue_of b.dlq_topic b) e f
        e (drain_fail fuel d f) q

  -- Where some consumer of a topic fails at every attempt, whichever place it has among them, and so
  -- does some consumer of the dead letters, a message that is published on the topic is never done
  -- with, whatever the fuel and whatever the other consumers do.
  pub endless :
      (fuel : ℕ) (m : BusMessage) (b : Bus) (c d : Consumer)
      → In c (consumers_of m.topic b)
      → AlwaysFails c
      → In d (consumers_of b.dlq_topic b)
      → AlwaysFails d
      → publish stamp fuel m b ≡ none
  unfolding publish drain
  endless zero m b c d ec fc ed fd = refl
  endless (suc fuel) m b c d ec fc ed fd =
      let q = queue_of-with_queue m.topic (queue_of m.topic b ++ m ∷ []) b in
      drain_at_fail fuel m.topic (push m b) c d (consumers_of m.topic b)
        (queue_of m.topic (push m b)) ec fc ed (drain_fail fuel d fd)
        (rw q (NotEmpty-append (queue_of m.topic b) m))
