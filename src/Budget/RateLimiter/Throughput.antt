-- ===== src/Budget/RateLimiter/Throughput.antt =====
-- How much a bucket grants over time.
use github_auto_dev.Base.{
  ℕ, ◌+◌, ◌-◌, ◌*◌, ◌≤◌, leb, String, ◌≡◌, refl, ◌∙◌, ap, none, some, List, [], ◌∷◌, arith,
  if◌then◌else◌, Bool-cases, inl, inr, All,
}
use github_auto_dev.Base.Dict
use github_auto_dev.Budget.RateLimiter.{
  RateLimiterConfig, Bucket, Buckets, bucket_key, bucket_at, refill, take,
}

-- A call of `take`: the two readings of the clock, and the tokens asked for.
pub record Call : Type 0 where
  pub start : ℕ
  pub now : ℕ
  pub asked : ℕ

module _ (config : RateLimiterConfig) (repo kind : String) where
  abbrev pub granted_of : Call → Buckets → ℕ
  granted_of c bs =
      if (take config c.start c.now repo kind c.asked bs).0.allowed then c.asked else 0

  -- The tokens granted by calls one after the other, and the buckets after them.
  abbrev pub run_takes : List Call → Buckets → ℕ × Buckets
  run_takes [] bs = (0, bs)
  run_takes (c ∷ cs) bs =
      let rest = run_takes cs (take config c.start c.now repo kind c.asked bs).1 in
      (granted_of c bs + rest.0, rest.1)

  sum_times : (d b r : ℕ) → d * r + b * r ≡ (d + b) * r
  sum_times d b r = ground arith

  gap : (a b r : ℕ) → b ≤ a → (a - b) * r + b * r ≡ a * r
  gap a b r h =
      let whole : (a - b) + b ≡ a = omega arith in sum_times (a - b) b r ∙ ap (λ x. x * r) whole

  -- A refill adds at most the rate over the time that has passed.
  refill-bounded :
      (now : ℕ) (b : Bucket)
      → (refill config now b).tokens + b.last_refill * config.refill_per_second
        ≤ b.tokens + (refill config now b).last_refill * config.refill_per_second
  unfolding refill
  refill-bounded now b = ground (arith, gap now b.last_refill config.refill_per_second)

  refill-capped :
      (now : ℕ) (b : Bucket)
      → b.tokens ≤ config.capacity * 1000
      → (refill config now b).tokens ≤ config.capacity * 1000
  unfolding refill
  refill-capped now b h = ground arith

  -- The bucket that a call takes from.
  abbrev ready : Call → Buckets → Bucket
  ready c bs = refill config c.now (bucket_at config c.start (bucket_key repo kind) bs)

  -- A call leaves a bucket which has given what it granted.
  take-bucket :
      (c : Call) (bs : Buckets)
      → (b : Bucket) × (Dict.get
            (bucket_key repo kind)
            (take config c.start c.now repo kind c.asked bs).1
          ≡ some b)
        × (granted_of c bs * 1000 + b.tokens ≡ (ready c bs).tokens)
        × (b.last_refill ≡ (ready c bs).last_refill)
  unfolding take
  take-bucket c bs = elim (Bool-cases (leb (c.asked * 1000) (ready c bs).tokens)) [
    | inl t ↦ rw t (
      record (ready c bs) { tokens = (ready c bs).tokens - c.asked * 1000 },
      Dict.get-set_self (bucket_key repo kind) _ bs,
      ground arith,
      refl,
    )
    | inr f ↦ rw f (ready c bs, Dict.get-set_self (bucket_key repo kind) _ bs, omega arith, refl)
  ]

  add_up :
      (g rest et bt bl b1t b1l rt rl el : ℕ)
      → g * 1000 + b1t ≡ rt
      → b1l ≡ rl
      → rt + bl ≤ bt + rl
      → rest * 1000 + et + b1l ≤ b1t + el
      → (g + rest) * 1000 + et + bl ≤ bt + el
  add_up g rest et bt bl b1t b1l rt rl el h1 h2 h3 h4 = omega arith

  refill-last :
      (limit now : ℕ) (b : Bucket)
      → now ≤ limit
      → b.last_refill ≤ limit
      → (refill config now b).last_refill ≤ limit
  unfolding refill
  refill-last limit now b h k = ground arith

  -- Once there is a bucket, what is granted from it is bounded by its tokens and the refills since.
  run_takes-present :
      (limit : ℕ) (cs : List Call) (bs : Buckets) (b : Bucket)
      → Dict.get (bucket_key repo kind) bs ≡ some b
      → All (λ c. c.now ≤ limit) cs
      → b.last_refill ≤ limit
      → (e : Bucket) × (Dict.get (bucket_key repo kind) (run_takes cs bs).1 ≡ some e)
        × ((run_takes cs bs).0 * 1000 + e.tokens + b.last_refill * config.refill_per_second
            ≤ b.tokens + e.last_refill * config.refill_per_second)
        × (e.last_refill ≤ limit)
  run_takes-present limit [] bs b h k low = (b, h, omega arith, low)
  run_takes-present limit (c ∷ cs) bs b h k low =
      let rate = config.refill_per_second in
      let (b1, found, given, kept) = take-bucket c bs in
      let same : bucket_at config c.start (bucket_key repo kind) bs ≡ b = rw h refl in
      let step = refill-bounded c.now b in
      let given' : granted_of c bs * 1000 + b1.tokens ≡ (refill config c.now b).tokens =
        rw same at given in
      let kept' : b1.last_refill ≡ (refill config c.now b).last_refill = rw same at kept in
      let low' : b1.last_refill ≤ limit = rw kept' (refill-last limit c.now b k.0 low) in
      let (e, at_end, rest, bound) =
        run_takes-present limit cs (take config c.start c.now repo kind c.asked bs).1 b1 found k.1
          low' in
      (
        e,
        at_end,
        add_up (granted_of c bs) _ e.tokens b.tokens (b.last_refill * rate) b1.tokens
            (b1.last_refill * rate) _ _ (e.last_refill * rate) given' (ap (λ x. x * rate) kept')
            step rest,
        bound,
      )

  times_mono : (a b r : ℕ) → b ≤ a → b * r ≤ a * r
  times_mono a b r h = let e = gap a b r h in omega arith

  -- A bucket that is new grants, over calls up to some time, at most its capacity and the refills of
  -- the time that has passed since, however the calls are spread and even when the clock goes back
  -- in between. (In thousandths of tokens, at a whole number of tokens per second.)
  pub run_takes-bounded :
      (limit : ℕ) (c : Call) (cs : List Call) (bs : Buckets)
      → Dict.get (bucket_key repo kind) bs ≡ none
      → All (λ d. d.now ≤ limit) (c ∷ cs)
      → c.start ≤ limit
      → (run_takes (c ∷ cs) bs).0 * 1000
        ≤ config.capacity * 1000 + (limit - c.start) * config.refill_per_second
  run_takes-bounded limit c cs bs h k low =
      let rate = config.refill_per_second in
      let b : Bucket = record { tokens = config.capacity * 1000; last_refill = c.start } in
      let (b1, found, given, kept) = take-bucket c bs in
      let same : bucket_at config c.start (bucket_key repo kind) bs ≡ b = rw h refl in
      let step = refill-bounded c.now b in
      let given' : granted_of c bs * 1000 + b1.tokens ≡ (refill config c.now b).tokens =
        rw same at given in
      let kept' : b1.last_refill ≡ (refill config c.now b).last_refill = rw same at kept in
      let low' : b1.last_refill ≤ limit = rw kept' (refill-last limit c.now b k.0 low) in
      let (e, at_end, rest, bound) =
        run_takes-present limit cs (take config c.start c.now repo kind c.asked bs).1 b1 found k.1
          low' in
      let all =
        add_up (granted_of c bs) _ e.tokens b.tokens (b.last_refill * rate) b1.tokens
          (b1.last_refill * rate) _ _ (e.last_refill * rate) given' (ap (λ x. x * rate) kept') step
          rest in
      let more = times_mono limit e.last_refill rate bound in
      let whole = gap limit c.start rate low in omega arith
