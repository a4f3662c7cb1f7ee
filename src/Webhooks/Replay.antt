-- ===== src/Webhooks/Replay.antt =====
-- What a second delivery of the same body does.
use github_auto_dev.Base.{
  ℕ, ◌+◌, ◌≤◌, ltb, String, ◌≡◌, ◌≢◌, refl, ap, ◌∙◌, ◌⊎◌, inl, inr, eq_iff, eq_refl, Option, none,
  some, Bool, true, false, List, [], ◌∷◌, ◌++◌, if◌then◌else◌, str_eq, arith, All, Bool-cases,
}
use github_auto_dev.Base.Dict
use github_auto_dev.Webhooks.Stores.{
  DedupRecord, DedupStore, MutationRecord, drop_old, lookup, remember,
}
use github_auto_dev.Webhooks.Events.{
  Parsers, CloudEventEnvelope, Mapping, mapped, unsupported, thrown, map_github_event,
}
use github_auto_dev.Webhooks.Route.{
  Request, deduped_replay, deduped, Answer, outcome, Web, WebhookDeps, ArtifactWrite, route_event,
  with_dedup, route_mapping, store_and_publish, after_match, is_bot, with_suppression, read_actor,
  is_replay, is_signed, handle_signed, handle_github_webhook,
}

-- A delivery that is in its window stays when the old ones are dropped.
get-drop_old :
    (id : String) (window now : ℕ) (rs : List (String × DedupRecord)) (d : DedupRecord)
    → Dict.get id rs ≡ some d
    → now ≤ d.first_seen_at + window
    → Dict.get id (drop_old window now rs) ≡ some d
unfolding Dict.get drop_old
get-drop_old id window now [] d h young = cc
get-drop_old id window now ((k, r) ∷ rs) d h young = elim (Bool-cases (str_eq k id)) [
  | inl t ↦
      let e : r ≡ d = cc (rw t at h) in
      let keep : ltb (r.first_seen_at + window) now ≡ false = rw e (ground arith) in
      rw keep (rw t (ap some e))
  | inr f ↦
      let rest = get-drop_old id window now rs d (rw f at h) young in
      elim (Bool-cases (ltb (r.first_seen_at + window) now)) [
        | inl old ↦ rw old rest
        | inr new ↦ rw new (rw f rest)
      ]
]

-- The store knows the delivery, with the hash of its body and the time when it was first seen.
abbrev pub Remembers : String → String → ℕ → ℕ → DedupStore → Type 0
Remembers id hash at_ms window s =
    (Dict.get id s.records
      ≡ some (record { delivery_id = id; content_hash = hash; first_seen_at = at_ms }))
    × (s.window_ms ≡ window)

store_and_publish-dedup :
    (o : Option (ArtifactWrite → Bool)) (r : Request) (hash : String) (e : CloudEventEnvelope)
    (w : Web)
    → (store_and_publish o r hash e w).1.dedup ≡ w.dedup
store_and_publish-dedup none r hash e w = refl
store_and_publish-dedup (some takes) r hash e w = ground arith

after_match-dedup :
    (deps : WebhookDeps) (r : Request) (hash : String) (e : CloudEventEnvelope)
    (o : Option MutationRecord) (w : Web)
    → (after_match deps r hash e o w).1.dedup ≡ w.dedup
after_match-dedup deps r hash e none w = store_and_publish-dedup deps.artifact_store r hash e w
after_match-dedup deps r hash e (some m) w = refl

route_event-dedup :
    (deps : WebhookDeps) (r : Request) (hash : String) (e : CloudEventEnvelope) (w : Web)
    → (route_event deps r hash e w).1.dedup ≡ w.dedup
unfolding route_event
route_event-dedup deps r hash e w = elim (Bool-cases (is_bot deps (read_actor e.data_read))) [
  | inl bot ↦ rw bot (after_match-dedup deps r hash e _ (with_suppression _ w))
  | inr n ↦ rw n (store_and_publish-dedup deps.artifact_store r hash e w)
]

route_mapping-dedup :
    (deps : WebhookDeps) (r : Request) (hash : String) (m : Mapping) (w : Web)
    → (route_mapping deps r hash m w).1.dedup ≡ w.dedup
route_mapping-dedup deps r hash (mapped e) w = route_event-dedup deps r hash e w
route_mapping-dedup deps r hash (unsupported t a) w = refl
route_mapping-dedup deps r hash thrown w = refl

module _ (hmac_hex : String → String → String) (sha256_hex : String → String) (parsers : Parsers)
    (deps : WebhookDeps) where
  abbrev handle : Request → Web → Answer × Web
  handle = handle_github_webhook hmac_hex sha256_hex parsers deps

  -- Some requests, one after the other.
  abbrev pub handle_all : List Request → Web → Web
  handle_all [] w = w
  handle_all (r ∷ rs) w = handle_all rs (handle r w).1

  -- The answer is that of a replay, which alone is published, and nothing is stored.
  abbrev pub IsReplayed : Request → Web → Type 0
  IsReplayed r w =
      ((handle r w).0 ≡ outcome deduped (some r.delivery) r.event)
      × (((handle r w).1.published
            ≡ w.published ++ deduped_replay r.delivery (sha256_hex r.body) ∷ [])
          × ((handle r w).1.artifacts ≡ w.artifacts))

  -- What is remembered when the old deliveries are dropped, and whether a request repeats one.
  abbrev kept : Request → Web → List (String × DedupRecord)
  kept q w = drop_old w.dedup.window_ms q.now_ms w.dedup.records

  abbrev replays : Request → Web → Bool
  replays q w = is_replay (sha256_hex q.body) (Dict.get q.delivery (kept q w))

  -- The deliveries that are remembered behind a signed request.
  signed-dedup :
      (q : Request) (w : Web)
      → (handle_signed hmac_hex sha256_hex parsers deps q w).1.dedup ≡ (
          if replays q w
          then record { records = kept q w; window_ms = w.dedup.window_ms }
          else remember q.delivery
              (sha256_hex q.body)
              q.now_ms
              (record { records = kept q w; window_ms = w.dedup.window_ms }))
  unfolding handle_signed lookup
  signed-dedup q w = elim (Bool-cases (replays q w)) [
    | inl t ↦ rw t refl
    | inr f ↦ rw f (
        route_mapping-dedup deps q (sha256_hex q.body)
          (map_github_event parsers q.event q.delivery q.body q.now_iso)
          (with_dedup
            (remember q.delivery (sha256_hex q.body) q.now_ms
              (record { records = kept q w; window_ms = w.dedup.window_ms }))
            w))
  ]

  -- A request that is remembered leaves the record of another, unless it has the same delivery with
  -- another body.
  fresh_kept :
      (q : Request) (id hash : String) (w : Web) (d : DedupRecord)
      → Dict.get id (kept q w) ≡ some d
      → (rs : List (String × DedupRecord)) → Dict.get id rs ≡ some d
      → d.content_hash ≡ hash
      → (q.delivery ≢ id) ⊎ (sha256_hex q.body ≡ hash)
      → replays q w ≡ false
      → (e : DedupRecord) → Dict.get id (Dict.set q.delivery e rs) ≡ some d
  fresh_kept q id hash w d there rs in_rs same other f e =
      elim (Bool-cases (str_eq q.delivery id)) [
        | inr n ↦ Dict.get-set_ne q.delivery id e rs (ground (arith, eq_iff q.delivery id)) ∙ in_rs
        | inl t ↦ elim other [
          | inl n ↦ absurd (n ((eq_iff q.delivery id).0 t))
          | inr h ↦
              let at_q : Dict.get q.delivery (kept q w) ≡ some d =
                rw ((eq_iff q.delivery id).0 t) there in
              let again : replays q w ≡ true = rw (at_q, same, h) (eq_refl hash) in
              absurd (ground arith)
        ]
      ]

  -- A signed request that is not answered as a replay is remembered.
  first_remembered :
      (r : Request) (w : Web)
      → is_signed hmac_hex sha256_hex parsers deps r ≡ true
      → (handle r w).0 ≢ outcome deduped (some r.delivery) r.event
      → Remembers r.delivery (sha256_hex r.body) r.now_ms w.dedup.window_ms (handle r w).1.dedup
  unfolding handle_github_webhook handle_signed lookup remember
  first_remembered r w signed new = elim (Bool-cases (replays r w)) [
    | inl t ↦ absurd (new (rw (signed, t) refl))
    | inr f ↦ rw signed (rw (signed-dedup r w) (rw f ((Dict.get-set_self r.delivery _ _, refl))))
  ]

  -- Neither a request for another delivery nor the same one again changes what is remembered.
  still_remembered :
      (q : Request) (id hash : String) (at_ms window : ℕ) (w : Web)
      → Remembers id hash at_ms window w.dedup
      → q.now_ms ≤ at_ms + window
      → (q.delivery ≢ id) ⊎ (sha256_hex q.body ≡ hash)
      → Remembers id hash at_ms window (handle q w).1.dedup
  unfolding handle_github_webhook handle_signed remember
  still_remembered q id hash at_ms window w (got, wide) soon other =
      let there = get-drop_old id w.dedup.window_ms q.now_ms w.dedup.records _ got (rw wide soon) in
      let again = get-drop_old id w.dedup.window_ms q.now_ms (kept q w) _ there (rw wide soon) in
      elim (Bool-cases (is_signed hmac_hex sha256_hex parsers deps q)) [
        | inr unsigned ↦ rw unsigned (got, wide)
        | inl signed ↦ rw signed (
            rw (signed-dedup q w) (elim (Bool-cases (replays q w)) [
              | inl t ↦ rw t (there, wide)
              | inr f ↦ rw f (
                fresh_kept q id hash w _ there _ again refl other f (record {
                  delivery_id = q.delivery;
                  content_hash = sha256_hex q.body;
                  first_seen_at = q.now_ms;
                }),
                wide,
              )
            ]))
      ]

  -- What is remembered is answered as a replay.
  replay_lem :
      (r : Request) (at_ms window : ℕ) (w : Web)
      → is_signed hmac_hex sha256_hex parsers deps r ≡ true
      → Remembers r.delivery (sha256_hex r.body) at_ms window w.dedup
      → r.now_ms ≤ at_ms + window
      → IsReplayed r w
  unfolding handle_github_webhook handle_signed lookup
  replay_lem r at_ms window w signed (got, wide) soon =
      let there =
        get-drop_old r.delivery w.dedup.window_ms r.now_ms w.dedup.records _ got (rw wide soon) in
      let again : replays r w ≡ true = rw there (eq_refl (sha256_hex r.body)) in
      rw (signed, again) (refl, (refl, refl))

  -- A request within the window that is for another delivery, or has the same body.
  abbrev pub Harmless : Request → Request → Type 0
  Harmless r q = (q.delivery ≢ r.delivery) ⊎ (sha256_hex q.body ≡ sha256_hex r.body)

  handle_all-Remembers :
      (qs : List Request) (r : Request) (window : ℕ) (w : Web)
      → Remembers r.delivery (sha256_hex r.body) r.now_ms window w.dedup
      → All (λ q. (q.now_ms ≤ r.now_ms + window) × Harmless r q) qs
      → Remembers r.delivery (sha256_hex r.body) r.now_ms window (handle_all qs w).dedup
  handle_all-Remembers [] r window w h k = h
  handle_all-Remembers (q ∷ qs) r window w h k =
      handle_all-Remembers qs r window (handle q w).1
        (still_remembered q r.delivery (sha256_hex r.body) r.now_ms window w h k.0.0 k.0.1) k.1

  -- Once a signed delivery was not answered as a replay, whatever became of it, the same delivery with
  -- the same body is within the window answered as one: nothing but that is published, no artifact is
  -- written, whatever other deliveries came in between.
  pub replayed :
      (r again : Request) (qs : List Request) (w : Web)
      → is_signed hmac_hex sha256_hex parsers deps r ≡ true
      → (handle_github_webhook hmac_hex sha256_hex parsers deps r w).0
        ≢ outcome deduped (some r.delivery) r.event
      → All (λ q. (q.now_ms ≤ r.now_ms + w.dedup.window_ms) × Harmless r q) qs
      → is_signed hmac_hex sha256_hex parsers deps again ≡ true
      → again.delivery ≡ r.delivery
      → again.body ≡ r.body
      → again.now_ms ≤ r.now_ms + w.dedup.window_ms
      → IsReplayed again
          (handle_all qs (handle_github_webhook hmac_hex sha256_hex parsers deps r w).1)
  replayed r again qs w signed new between signed' same_delivery same_body soon =
      let first = first_remembered r w signed new in
      let then_on = handle_all-Remembers qs r w.dedup.window_ms (handle r w).1 first between in
      replay_lem again r.now_ms w.dedup.window_ms (handle_all qs (handle r w).1) signed'
        (rw (same_delivery, same_body) then_on) soon
