-- ===== src/Budget/Race.antt =====
-- Overlapping calls of the budget: every call reads its counter, and settles later.
use github_auto_dev.Base.{
  ℕ, zero, suc, ◌+◌, ◌*◌, ◌≤◌, String, ◌≡◌, refl, ◌∙◌, List, [], ◌∷◌, ◌++◌, true, false, length,
  All, arith, eq_refl, ltb,
}
use github_auto_dev.Budget.{
  Ledger, BudgetLimits, ConsumeInput, ConsumeResult, limit_for, units_at, prior_of, settle,
  hour_bucket,
}
use github_auto_dev.Budget.Limits.{key_of, units_at-add_units}

-- The ledger, with the calls that have read their counter and not settled yet.
pub record Calls : Type 0 where
  pub ledger : Ledger
  pub waiting : List (String × ConsumeInput × ℕ)

-- A call reads its counter at some time, which gives no answer yet; the call that has waited least
-- settles, with its answer.
pub data Step (limits : BudgetLimits) : Calls → List ConsumeResult → Calls → Type 0 where
  begins :
      {l : Ledger} {w : List (String × ConsumeInput × ℕ)} (at : String) (i : ConsumeInput)
      → Step limits
          (record { ledger = l; waiting = w })
          []
          (record { ledger = l; waiting = (at, i, prior_of at i l) ∷ w })
  settles :
      {l : Ledger} {w : List (String × ConsumeInput × ℕ)} {at : String} {i : ConsumeInput}
      {prior : ℕ}
      → Step limits
          (record { ledger = l; waiting = (at, i, prior) ∷ w })
          ((settle limits at i prior l).0 ∷ [])
          (record { ledger = (settle limits at i prior l).1; waiting = w })

-- Any number of steps, with the answers given in them.
pub data Steps (limits : BudgetLimits) : Calls → List ConsumeResult → Calls → Type 0 where
  done : {c : Calls} → Steps limits c [] c
  more :
      {a b c : Calls} {rs ss : List ConsumeResult}
      → Step limits a rs b
      → Steps limits b ss c
      → Steps limits a (rs ++ ss) c

-- The same call, read against the same counter, any number of times.
abbrev pub copies : ℕ → String → ConsumeInput → ℕ → List (String × ConsumeInput × ℕ)
copies zero at i prior = []
copies (suc n) at i prior = (at, i, prior) ∷ copies n at i prior

one_more :
    {limits : BudgetLimits} {a b c : Calls}
    → Steps limits a [] b
    → Step limits b [] c
    → Steps limits a [] c
one_more {limits} {a} {b} {c} s t = after s refl
  where
    after :
        {d : Calls} {rs : List ConsumeResult} → Steps limits d rs b → rs ≡ [] → Steps limits d [] c
    after done e = more t done
    after (more {rs = []} u v) e = more u (after v e)
    after (more {rs = r ∷ rs} u v) e = cc

begin_all :
    (limits : BudgetLimits) (at : String) (i : ConsumeInput) (l : Ledger) (n : ℕ)
    → Steps limits
        (record { ledger = l; waiting = [] })
        []
        (record { ledger = l; waiting = copies n at i (prior_of at i l) })
begin_all limits at i l zero = done
begin_all limits at i l (suc n) = one_more (begin_all limits at i l n) (begins at i)

settle_units :
    (limits : BudgetLimits) (at : String) (i : ConsumeInput) (prior : ℕ) (l : Ledger)
    → prior + i.units ≤ limit_for limits i.repo
    → ((settle limits at i prior l).0.allowed ≡ true)
      × (units_at (key_of at i) (settle limits at i prior l).1 ≡ units_at (key_of at i) l + i.units)
unfolding settle
settle_units limits at i prior l h =
    let fits : ltb (limit_for limits i.repo) (prior + i.units) ≡ false = ground arith in
    rw fits (
      refl,
      units_at-add_units i.repo i.kind (hour_bucket at) i.units at l (key_of at i)
          ∙ rw (eq_refl (key_of at i)) refl,
    )

abbrev pub IsAllowed : ConsumeResult → Type 0
IsAllowed r = r.allowed ≡ true

settled_copies :
    (limits : BudgetLimits) (at : String) (i : ConsumeInput) (prior n : ℕ) (l : Ledger)
    → prior + i.units ≤ limit_for limits i.repo
    → (end : Ledger) × (answers : List ConsumeResult) × Steps limits
        (record { ledger = l; waiting = copies n at i prior })
        answers
        (record { ledger = end; waiting = [] })
      × (length answers ≡ n)
      × All IsAllowed answers
      × (units_at (key_of at i) end ≡ units_at (key_of at i) l + n * i.units)
settled_copies limits at i prior zero l h = (l, [], done, refl, tt, omega arith)
settled_copies limits at i prior (suc n) l h =
    let (end, answers, steps, counted, granted, total) =
      settled_copies limits at i prior n (settle limits at i prior l).1 h in
    let (one, units) = settle_units limits at i prior l h in
    (
      end,
      (settle limits at i prior l).0 ∷ answers,
      more settles steps,
      omega (arith, counted),
      (one, granted),
      total ∙ rw units (ground arith),
    )

-- Calls that overlap are not held by the limit. From any ledger in which one call still fits, any
-- number of copies of that call may all read before the first settles, without an answer; and when
-- they then settle, one after the other, each gets its answer, every answer is that it is allowed,
-- and the units of all are added to the counter.
pub overlapping-exceed :
    (limits : BudgetLimits) (at : String) (i : ConsumeInput) (l : Ledger) (n : ℕ)
    → prior_of at i l + i.units ≤ limit_for limits i.repo
    → Steps limits
        (record { ledger = l; waiting = [] })
        []
        (record { ledger = l; waiting = copies n at i (prior_of at i l) })
      × ((end : Ledger) × (answers : List ConsumeResult) × Steps limits
            (record { ledger = l; waiting = copies n at i (prior_of at i l) })
            answers
            (record { ledger = end; waiting = [] })
          × (length answers ≡ n)
          × All IsAllowed answers
          × (units_at (key_of at i) end ≡ units_at (key_of at i) l + n * i.units))
overlapping-exceed limits at i l n h =
    (begin_all limits at i l n, settled_copies limits at i (prior_of at i l) n l h)
