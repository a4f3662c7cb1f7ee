-- ===== src/Budget.antt =====
-- packages/db/src/repos/budget-ledger-repo.ts and apps/orchestrator/src/modules/budget: the ledger,
-- the hourly budget of a repository and the daily quota of an actor. A time is an ISO text.
pub mod Limits
pub mod Race
pub mod RateLimiter
use github_auto_dev.Base.{
  ℕ, ◌+◌, ◌-◌, leb, ltb, String, Option, none, some, List, [], ◌∷◌, Bool, true, false, or_else,
  if◌then◌else◌,
}
use github_auto_dev.Base.Dict
use github_auto_dev.Base.Text.{◌<>◌, take_chars}

pub record LedgerRow : Type 0 where
  pub repo : String
  pub kind : String
  pub hour_id : String
  pub units : ℕ
  pub updated_at : String

pub record QuotaRow : Type 0 where
  pub actor : String
  pub day_id : String
  pub triggers : ℕ
  pub updated_at : String

pub record Ledger : Type 0 where
  pub rows : List (String × LedgerRow)
  pub quota : List (String × QuotaRow)

abbrev pub hour_key : String → String → String → String
hour_key repo kind hour = repo <> "|" <> kind <> "|" <> hour

abbrev pub day_key : String → String → String
day_key actor day = actor <> "|" <> day

abbrev pub units_of : Option LedgerRow → ℕ
units_of none = 0
units_of (some r) = r.units

abbrev pub triggers_of : Option QuotaRow → ℕ
triggers_of none = 0
triggers_of (some r) = r.triggers

-- The counter under a key, and `getHour`.
abbrev pub units_at : String → Ledger → ℕ
units_at key l = units_of (Dict.get key l.rows)

unfoldable pub get_hour : String → String → String → Ledger → ℕ
get_hour repo kind hour l = units_at (hour_key repo kind hour) l

-- `consume` of the ledger: the new total, and the row that is written.
unfoldable pub add_units : String → String → String → ℕ → String → Ledger → ℕ × Ledger
add_units repo kind hour units now l =
    let key = hour_key repo kind hour in
    let next = units_at key l + units in
    (
      next,
      record l {
        rows =
            Dict.set key
              (record { repo = repo; kind = kind; hour_id = hour; units = next; updated_at = now })
              l.rows;
      },
    )

abbrev pub triggers_at : String → Ledger → ℕ
triggers_at key l = triggers_of (Dict.get key l.quota)

unfoldable pub get_quota_day : String → String → Ledger → ℕ
get_quota_day actor day l = triggers_at (day_key actor day) l

unfoldable pub add_triggers : String → String → ℕ → String → Ledger → ℕ × Ledger
add_triggers actor day n now l =
    let key = day_key actor day in
    let next = triggers_at key l + n in
    (
      next,
      record l {
        quota =
            Dict.set key (record { actor = actor; day_id = day; triggers = next; updated_at = now })
              l.quota;
      },
    )

-- `hourBucket` and `dayBucket`.
abbrev pub hour_bucket : String → String
hour_bucket at = take_chars 13 at

abbrev pub day_bucket : String → String
day_bucket at = take_chars 10 at

pub record BudgetLimits : Type 0 where
  pub per_repo_per_hour : ℕ
  pub repo_overrides : List (String × ℕ)

pub record ConsumeInput : Type 0 where
  pub repo : String
  pub actor : String
  pub kind : String
  pub units : ℕ

pub record ConsumeResult : Type 0 where
  pub allowed : Bool
  pub remaining : ℕ
  pub limit : ℕ
  pub used : ℕ

abbrev pub limit_for : BudgetLimits → String → ℕ
limit_for limits repo = or_else (Dict.get repo limits.repo_overrides) limits.per_repo_per_hour

-- The two halves of `BudgetService.consume`, between which other calls may run: what it reads, and
-- what it does then. Subtraction stops at 0, as `Math.max(0, ...)` does.
unfoldable pub prior_of : String → ConsumeInput → Ledger → ℕ
prior_of at i l = get_hour i.repo i.kind (hour_bucket at) l

unfoldable pub settle :
    BudgetLimits → String → ConsumeInput → (prior : ℕ) → Ledger → ConsumeResult × Ledger
settle limits at i prior l =
    let limit = limit_for limits i.repo in
    let out = add_units i.repo i.kind (hour_bucket at) i.units at l in
    if ltb limit (prior + i.units)
    then (record { allowed = false; remaining = limit - prior; limit = limit; used = prior }, l)
    else (record { allowed = true; remaining = limit - out.0; limit = limit; used = out.0 }, out.1)

unfoldable pub consume : BudgetLimits → String → ConsumeInput → Ledger → ConsumeResult × Ledger
consume limits at i l = settle limits at i (prior_of at i l) l

pub record QuotaConfig : Type 0 where
  pub per_actor_per_day : ℕ
  pub actor_overrides : List (String × ℕ)

pub record QuotaInput : Type 0 where
  pub actor : String
  pub repo : String
  pub run_id : String

pub record QuotaResult : Type 0 where
  pub allowed : Bool
  pub used : ℕ
  pub limit : ℕ

-- The event `budget.exhausted`.
pub record Exhausted : Type 0 where
  pub actor : String
  pub repo : String
  pub run_id : String
  pub day_id : String
  pub used : ℕ
  pub limit : ℕ

abbrev pub quota_for : QuotaConfig → String → ℕ
quota_for config actor = or_else (Dict.get actor config.actor_overrides) config.per_actor_per_day

-- `ActorQuotaService.consume`, with the events that it publishes.
unfoldable pub consume_quota :
    QuotaConfig → String → QuotaInput → Ledger → QuotaResult × List Exhausted × Ledger
consume_quota config at i l =
    let day = day_bucket at in
    let limit = quota_for config i.actor in
    let prior = get_quota_day i.actor day l in
    let out = add_triggers i.actor day 1 at l in
    if ltb limit (prior + 1)
    then (
      record { allowed = false; used = prior; limit = limit },
      record {
        actor = i.actor;
        repo = i.repo;
        run_id = i.run_id;
        day_id = day;
        used = prior;
        limit = limit;
      }
          ∷ [],
      l,
    )
    else (record { allowed = true; used = out.0; limit = limit }, [], out.1)
