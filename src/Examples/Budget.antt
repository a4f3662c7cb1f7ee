-- ===== src/Examples/Budget.antt =====
-- Budgets, quotas and rate limits on concrete calls.
use github_auto_dev.Base.{
  ◌+◌, ◌*◌, ◌-◌, ◌≤◌, String, ◌≡◌, ◌↔◌, refl, List, [], ◌∷◌, length, All, true, false, str_eq,
  if◌then◌else◌, arith,
}
use github_auto_dev.Base.Dict
use github_auto_dev.Base.Text.{take_chars}
use github_auto_dev.Budget.{
  Ledger, BudgetLimits, ConsumeInput, ConsumeResult, limit_for, units_at, consume, settle, prior_of,
  get_hour, add_units, QuotaConfig, QuotaInput, day_key, day_bucket,
}
use github_auto_dev.Budget.Limits.{
  key_of, Within, consume_all, consume-allowed_iff, consume_all-Within,
}
use github_auto_dev.Budget.Race.{Steps, copies, IsAllowed, overlapping-exceed}
use github_auto_dev.Budget.RateLimiter.{RateLimiterConfig}
use github_auto_dev.Budget.RateLimiter.Throughput.{Call, run_takes, run_takes-bounded}

abbrev limits : BudgetLimits
limits = record { per_repo_per_hour = 3; repo_overrides = [] }

abbrev nothing : Ledger
nothing = record { rows = []; quota = [] }

abbrev two : ConsumeInput
two = record { repo = "r"; actor = "a"; kind = "agent_run"; units = 2 }

abbrev noon : String
noon = "2025-01-01T12:00:00.000Z"

second_refused : (consume limits noon two (consume limits noon two nothing).1).0.allowed ≡ false
unfolding consume settle prior_of get_hour add_units Dict.get Dict.set take_chars
second_refused = refl

consume-allowed_iff_example :
    (((consume limits noon two nothing).0.allowed ≡ true)
      ↔ (units_at (key_of noon two) nothing + 2 ≤ limit_for limits "r"))
    × ((consume limits noon two nothing).0.allowed ≡ false
        → (consume limits noon two nothing).1 ≡ nothing)
    × ((consume limits noon two nothing).0.allowed ≡ true
        → (key : String)
        → units_at key (consume limits noon two nothing).1 ≡ (
            if str_eq (key_of noon two) key
            then units_at (key_of noon two) nothing + 2
            else units_at key nothing))
consume-allowed_iff_example = consume-allowed_iff limits noon two nothing

limits_capped : (repo : String) → limit_for limits repo ≤ 3
unfolding Dict.get
limits_capped repo = omega arith

nothing-Within : Within 3 nothing
unfolding Dict.get
nothing-Within key = omega arith

consume_all-Within_example : Within 3 (consume_all limits ((noon, two) ∷ (noon, two) ∷ []) nothing)
consume_all-Within_example =
    consume_all-Within limits 3 ((noon, two) ∷ (noon, two) ∷ []) nothing limits_capped
      nothing-Within

abbrev quota : QuotaConfig
quota = record { per_actor_per_day = 1; actor_overrides = [] }

abbrev trigger : QuotaInput
trigger = record { actor = "a"; repo = "r"; run_id = "run" }

abbrev counter : String
counter = day_key "a" (day_bucket noon)

one_fits : prior_of noon two nothing + 2 ≤ limit_for limits "r"
unfolding prior_of get_hour Dict.get
one_fits = omega arith

-- Five calls of 2 units each, against a limit of 3.
overlapping-exceed_example :
    Steps limits
      (record { ledger = nothing; waiting = [] })
      []
      (record { ledger = nothing; waiting = copies 5 noon two (prior_of noon two nothing) })
    × ((end : Ledger) × (answers : List ConsumeResult) × Steps limits
          (record { ledger = nothing; waiting = copies 5 noon two (prior_of noon two nothing) })
          answers
          (record { ledger = end; waiting = [] })
        × (length answers ≡ 5)
        × All IsAllowed answers
        × (units_at (key_of noon two) end ≡ units_at (key_of noon two) nothing + 5 * 2))
overlapping-exceed_example = overlapping-exceed limits noon two nothing 5 one_fits

abbrev rate : RateLimiterConfig
rate = record { capacity = 2; refill_per_second = 1 }

abbrev first_call : Call
first_call = record { start = 0; now = 0; asked = 2 }

abbrev second_call : Call
second_call = record { start = 500; now = 500; asked = 1 }

run_takes-bounded_example :
    (run_takes rate "r" "webhook" (first_call ∷ second_call ∷ []) []).0 * 1000
    ≤ 2 * 1000 + (1000 - 0) * 1
run_takes-bounded_example =
    run_takes-bounded rate "r" "webhook" 1000 first_call (second_call ∷ []) []
      (unfold Dict.get in refl) (omega arith, (omega arith, tt)) (omega arith)
