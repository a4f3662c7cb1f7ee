-- ===== src/Budget/Limits.antt =====
-- What the budget and the quota promise when their calls do not overlap.
use github_auto_dev.Base.{
  ℕ, ◌+◌, ◌≤◌, ltb, String, str_eq, ◌≡◌, refl, ◌↔◌, List, [], ◌∷◌, true, false, arith, Bool-cases,
  inl, inr, length, if◌then◌else◌,
}
use github_auto_dev.Base.Dict
use github_auto_dev.Budget.{
  QuotaRow, Ledger, hour_key, hour_bucket, day_key, day_bucket, units_at, triggers_at, get_hour,
  get_quota_day, add_units, add_triggers, BudgetLimits, ConsumeInput, limit_for, prior_of, settle,
  consume, QuotaConfig, QuotaInput, quota_for, consume_quota,
}

-- The key of the counter that a call uses.
abbrev pub key_of : String → ConsumeInput → String
key_of at i = hour_key i.repo i.kind (hour_bucket at)

-- Writing a counter, as its readers see it.
pub units_at-add_units :
    (repo kind hour : String) (n : ℕ) (now : String) (l : Ledger) (key : String)
    → units_at key (add_units repo kind hour n now l).1 ≡ (
        if str_eq (hour_key repo kind hour) key
        then units_at (hour_key repo kind hour) l + n
        else units_at key l)
unfolding add_units
units_at-add_units repo kind hour n now l key =
    elim (Bool-cases (str_eq (hour_key repo kind hour) key)) [
      | inl t ↦
          rw
            (
              Dict.get-set (hour_key repo kind hour) key
                  (record {
                    repo = repo;
                    kind = kind;
                    hour_id = hour;
                    units = units_at (hour_key repo kind hour) l + n;
                    updated_at = now;
                  })
                  l.rows,
              t,
            )
            refl
      | inr f ↦
          rw
            (
              Dict.get-set (hour_key repo kind hour) key
                  (record {
                    repo = repo;
                    kind = kind;
                    hour_id = hour;
                    units = units_at (hour_key repo kind hour) l + n;
                    updated_at = now;
                  })
                  l.rows,
              f,
            )
            refl
    ]

-- A call is allowed exactly when its units still fit under the repository's limit. It then adds them
-- to its own hour's counter and to no other; a call that is refused changes nothing.
pub consume-allowed_iff :
    (limits : BudgetLimits) (at : String) (i : ConsumeInput) (l : Ledger)
    → (((consume limits at i l).0.allowed ≡ true)
        ↔ (units_at (key_of at i) l + i.units ≤ limit_for limits i.repo))
      × ((consume limits at i l).0.allowed ≡ false → (consume limits at i l).1 ≡ l)
      × ((consume limits at i l).0.allowed ≡ true
          → (key : String)
          → units_at key (consume limits at i l).1 ≡ (
              if str_eq (key_of at i) key
              then units_at (key_of at i) l + i.units
              else units_at key l))
unfolding consume settle prior_of get_hour
consume-allowed_iff limits at i l =
    elim (Bool-cases (ltb (limit_for limits i.repo) (units_at (key_of at i) l + i.units))) [
      | inl over ↦ rw over ((λ h. cc h, λ h. ground arith), λ _. refl, λ h. cc h)
      | inr fits ↦ rw fits (
        (λ _. ground arith, λ _. refl),
        λ h. cc h,
        λ _ key. units_at-add_units i.repo i.kind (hour_bucket at) i.units at l key,
      )
    ]

-- Calls one after the other.
abbrev pub consume_all : BudgetLimits → List (String × ConsumeInput) → Ledger → Ledger
consume_all limits [] l = l
consume_all limits ((at, i) ∷ calls) l = consume_all limits calls (consume limits at i l).1

-- No counter is above the cap.
abbrev pub Within : ℕ → Ledger → Type 0
Within cap l = (key : String) → units_at key l ≤ cap

consume-Within :
    (limits : BudgetLimits) (cap : ℕ) (at : String) (i : ConsumeInput) (l : Ledger)
    → ((repo : String) → limit_for limits repo ≤ cap)
    → Within cap l
    → Within cap (consume limits at i l).1
consume-Within limits cap at i l c w key =
    let (fits, refused, added) = consume-allowed_iff limits at i l in
    elim (Bool-cases (consume limits at i l).0.allowed) [
      | inl t ↦ let low = fits.0 t in rw (added t key) (ground (arith, c i.repo, w key))
      | inr f ↦ rw (refused f) (w key)
    ]

-- When every repository's limit is at most the cap, calls that do not overlap keep every hour's
-- counter within the cap, however many they are.
pub consume_all-Within :
    (limits : BudgetLimits) (cap : ℕ) (calls : List (String × ConsumeInput)) (l : Ledger)
    → ((repo : String) → limit_for limits repo ≤ cap)
    → Within cap l
    → Within cap (consume_all limits calls l)
consume_all-Within limits cap [] l c w = w
consume_all-Within limits cap ((at, i) ∷ calls) l c w =
    consume_all-Within limits cap calls (consume limits at i l).1 c
      (consume-Within limits cap at i l c w)

triggers_at-add_triggers :
    (actor day : String) (n : ℕ) (now : String) (l : Ledger) (key : String)
    → triggers_at key (add_triggers actor day n now l).1 ≡ (
        if str_eq (day_key actor day) key
        then triggers_at (day_key actor day) l + n
        else triggers_at key l)
unfolding add_triggers
triggers_at-add_triggers actor day n now l key =
    let row : QuotaRow = record {
      actor = actor;
      day_id = day;
      triggers = triggers_at (day_key actor day) l + n;
      updated_at = now;
    } in
    elim (Bool-cases (str_eq (day_key actor day) key)) [
      | inl t ↦ rw (Dict.get-set (day_key actor day) key row l.quota, t) refl
      | inr f ↦ rw (Dict.get-set (day_key actor day) key row l.quota, f) refl
    ]

-- A trigger is allowed exactly while the actor's counter of the day is below the quota. It then
-- counts one more for that actor and day and publishes nothing; a trigger that is refused changes
-- no counter and publishes one event.
pub consume_quota-allowed_iff :
    (config : QuotaConfig) (at : String) (i : QuotaInput) (l : Ledger)
    → (((consume_quota config at i l).0.allowed ≡ true)
        ↔ (triggers_at (day_key i.actor (day_bucket at)) l + 1 ≤ quota_for config i.actor))
      × ((consume_quota config at i l).0.allowed ≡ false
          → ((consume_quota config at i l).2 ≡ l) × (length (consume_quota config at i l).1 ≡ 1))
      × ((consume_quota config at i l).0.allowed ≡ true
          → (length (consume_quota config at i l).1 ≡ 0)
            × ((key : String)
                → triggers_at key (consume_quota config at i l).2 ≡ (
                    if str_eq (day_key i.actor (day_bucket at)) key
                    then triggers_at (day_key i.actor (day_bucket at)) l + 1
                    else triggers_at key l)))
unfolding consume_quota get_quota_day
consume_quota-allowed_iff config at i l =
    elim (Bool-cases
      (ltb (quota_for config i.actor) (triggers_at (day_key i.actor (day_bucket at)) l + 1))) [
        | inl over ↦ rw over ((λ h. cc h, λ h. ground arith), λ _. (refl, refl), λ h. cc h)
        | inr fits ↦ rw fits (
          (λ _. ground arith, λ _. refl),
          λ h. cc h,
          λ _. (refl, λ key. triggers_at-add_triggers i.actor (day_bucket at) 1 at l key),
        )
      ]
