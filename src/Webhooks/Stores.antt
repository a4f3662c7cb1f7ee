-- ===== src/Webhooks/Stores.antt =====
-- webhook/dedup-store.ts and webhook/suppression-store.ts: the deliveries that were seen and the
-- mutations that the program made itself, both for a window of time in milliseconds.
use github_auto_dev.Base.{
  ℕ, ◌+◌, ltb, String, Option, Bool, ◌&&◌, List, [], ◌∷◌, ◌++◌, if◌then◌else◌, str_eq, find,
}
use github_auto_dev.Base.Dict

pub record DedupRecord : Type 0 where
  pub delivery_id : String
  pub content_hash : String
  pub first_seen_at : ℕ

pub record DedupStore : Type 0 where
  pub records : List (String × DedupRecord)
  pub window_ms : ℕ

-- The loop of `gc`: what was first seen before the window is dropped.
unfoldable pub drop_old : ℕ → ℕ → List (String × DedupRecord) → List (String × DedupRecord)
drop_old window now [] = []
drop_old window now ((k, r) ∷ rs) =
    let rest = drop_old window now rs in
    if ltb (r.first_seen_at + window) now then rest else (k, r) ∷ rest

abbrev pub gc : ℕ → DedupStore → DedupStore
gc now s = record { records = drop_old s.window_ms now s.records; window_ms = s.window_ms }

unfoldable pub lookup : String → ℕ → DedupStore → Option DedupRecord × DedupStore
unfolding drop_old Dict.get
lookup id now s = let clean = gc now s in (Dict.get id clean.records, clean)

unfoldable pub remember : String → String → ℕ → DedupStore → DedupStore
unfolding drop_old Dict.set
remember id hash now s =
    let clean = gc now s in
    let seen : DedupRecord = record {
      delivery_id = id;
      content_hash = hash;
      first_seen_at = now;
    } in
    record { records = Dict.set id seen clean.records; window_ms = s.window_ms }

-- The input of `match`.
pub record Echo : Type 0 where
  pub actor : String
  pub event_type : String
  pub subject : String
  pub content_hash : String

pub record MutationRecord : Type 0 where
  pub actor : String
  pub event_type : String
  pub subject : String
  pub content_hash : String
  pub at_ms : ℕ

pub record SuppressionStore : Type 0 where
  pub records : List MutationRecord
  pub window_ms : ℕ

-- The loop of `gc`: only records at the front are dropped.
unfoldable pub shift_old : ℕ → ℕ → List MutationRecord → List MutationRecord
shift_old window now [] = []
shift_old window now (r ∷ rs) =
    let rest = shift_old window now rs in if ltb (r.at_ms + window) now then rest else r ∷ rs

unfoldable pub record_mutation : MutationRecord → ℕ → SuppressionStore → SuppressionStore
unfolding shift_old
record_mutation m now s = record {
  records = shift_old s.window_ms now (s.records ++ m ∷ []);
  window_ms = s.window_ms;
}

abbrev pub explains : Echo → MutationRecord → Bool
explains e r =
    str_eq r.actor e.actor
    && (str_eq r.event_type e.event_type
        && (str_eq r.subject e.subject && str_eq r.content_hash e.content_hash))

unfoldable pub match_mutation :
    Echo → ℕ → SuppressionStore → Option MutationRecord × SuppressionStore
unfolding shift_old find
match_mutation e now s =
    let clean = shift_old s.window_ms now s.records in
    let kept : SuppressionStore = record { records = clean; window_ms = s.window_ms } in
    (find (explains e) clean, kept)
