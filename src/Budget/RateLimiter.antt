-- ===== src/Budget/RateLimiter.antt =====
-- apps/orchestrator/src/modules/budget/rate-limiter.ts. Tokens are counted in thousandths, so that a
-- refill of a whole number of tokens per second is exact; times are milliseconds. `take` reads the
-- clock twice when the bucket is new.
pub mod Throughput
use github_auto_dev.Base.{
  ℕ, ◌+◌, ◌-◌, ◌*◌, leb, String, List, Bool, true, false, or_else, if◌then◌else◌,
}
use github_auto_dev.Base.Dict
use github_auto_dev.Base.Text.{◌<>◌}

pub record RateLimiterConfig : Type 0 where
  pub capacity : ℕ
  pub refill_per_second : ℕ

pub record TakeResult : Type 0 where
  pub allowed : Bool
  pub remaining : ℕ

pub record Bucket : Type 0 where
  pub tokens : ℕ
  pub last_refill : ℕ

abbrev pub Buckets : Type 0
Buckets = List (String × Bucket)

abbrev pub bucket_key : String → String → String
bucket_key repo kind = repo <> "|" <> kind

abbrev pub min : ℕ → ℕ → ℕ
min a b = if leb a b then a else b

module _ (config : RateLimiterConfig) where
  unfoldable pub refill : (now : ℕ) → Bucket → Bucket
  refill now b = if leb now b.last_refill then b else record {
    tokens =
        min (config.capacity * 1000) (b.tokens + (now - b.last_refill) * config.refill_per_second);
    last_refill = now;
  }

  -- The bucket of a key, new and full at `now` if there is none.
  abbrev pub bucket_at : (now : ℕ) → String → Buckets → Bucket
  bucket_at now key bs =
      or_else (Dict.get key bs) (record { tokens = config.capacity * 1000; last_refill = now })

  -- `take` at `start` on the first reading of the clock, and `now` on the second.
  unfoldable pub take : (start now : ℕ) → String → String → (n : ℕ) → Buckets → TakeResult × Buckets
  take start now repo kind n bs =
      let key = bucket_key repo kind in
      let b = refill now (bucket_at start key bs) in
      let rest = record b { tokens = b.tokens - n * 1000 } in
      if leb (n * 1000) b.tokens
      then (record { allowed = true; remaining = rest.tokens }, Dict.set key rest bs)
      else (record { allowed = false; remaining = b.tokens }, Dict.set key b bs)
