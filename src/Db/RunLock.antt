-- ===== src/Db/RunLock.antt =====
-- `InMemoryRunLock` of packages/db/src/repos/workflow-run-repo.ts, and the calls of its `with`. What
-- `await` leaves to the runtime is the queue of the calls that were woken and have not yet gone on.
pub mod Exclusion
pub mod Progress
use github_auto_dev.Base.{
  ℕ, zero, suc, ◌-◌, ◌≡◌, String, Option, none, some, Bool, true, false, not, List, [], ◌∷◌, ◌++◌,
  if◌then◌else◌, opt_eq, ltb,
}

pub record RunLock : Type 0 where
  pub holder : Option String
  pub depth : ℕ
  pub waiters : List String

abbrev pub fresh_lock : RunLock
fresh_lock = record { holder = none; depth = 0; waiters = [] }

-- Whether an attempt got the lock or waits for it.
pub data Attempt : Type 0 where
  entered waiting : Attempt

-- The test of the loop in `acquire`, and what stands behind the loop.
abbrev enter_at : Option String → String → RunLock → Attempt × RunLock
enter_at none h l = (entered, record { holder = some h; depth = 1; waiters = l.waiters })
enter_at (some _) h l =
    (waiting, record { holder = l.holder; depth = l.depth; waiters = l.waiters ++ h ∷ [] })

-- What a woken call does: whoever holds the lock, the test of the loop comes next.
abbrev pub enter : String → RunLock → Attempt × RunLock
enter h l = enter_at l.holder h l

unfoldable pub acquire : String → RunLock → Attempt × RunLock
unfolding opt_eq
acquire h l =
    if opt_eq l.holder (some h)
    then (entered, record { holder = l.holder; depth = suc l.depth; waiters = l.waiters })
    else enter h l

-- `waiters.shift()`, and the call that it wakes.
abbrev wake : List String → List String × List String
wake [] = ([], [])
wake (w ∷ ws) = (w ∷ [], ws)

-- The calls that a release wakes, and the lock after it.
unfoldable pub release : String → RunLock → List String × RunLock
unfolding opt_eq
release h l =
    let less : RunLock = record { holder = l.holder; depth = l.depth - 1; waiters = l.waiters } in
    let (woken, waiters) = wake l.waiters in
    if not (opt_eq l.holder (some h))
    then ([], l)
    else if ltb 0 (l.depth - 1)
    then ([], less)
    else (woken, record { holder = none; depth = l.depth - 1; waiters = waiters })

-- The lock, the woken calls, and the calls whose function runs, each by its holder.
pub record Calls : Type 0 where
  pub lock : RunLock
  pub woken : List String
  pub inside : List String

abbrev pub no_calls : Calls
no_calls = record { lock = fresh_lock; woken = []; inside = [] }

abbrev gone_in : Attempt → String → List String → List String
gone_in entered h inside = h ∷ inside
gone_in waiting h inside = inside

-- `with` is called.
unfoldable pub called : String → Calls → Calls
unfolding acquire
called h s =
    let (attempt, lock) = acquire h s.lock in
    record { lock = lock; woken = s.woken; inside = gone_in attempt h s.inside }

-- The first of the woken calls goes on.
abbrev pub resumed : String → List String → Calls → Calls
resumed h woken s =
    let (attempt, lock) = enter h s.lock in
    record { lock = lock; woken = woken; inside = gone_in attempt h s.inside }

-- A function ends, with a result or an error, and its call releases the lock.
unfoldable pub left : String → List String → Calls → Calls
unfolding release
left h inside s =
    let (woken, lock) = release h s.lock in
    record { lock = lock; woken = s.woken ++ woken; inside = inside }

pub data Step (s : Calls) : Calls → Type 0 where
  call : (h : String) → Step s (called h s)
  resume : (h : String) (woken : List String) → s.woken ≡ h ∷ woken → Step s (resumed h woken s)
  leave :
      (h : String) (before after : List String)
      → s.inside ≡ before ++ h ∷ after
      → Step s (left h (before ++ after) s)

-- Any number of steps.
pub data Steps : Calls → Calls → Type 0 where
  done : {s : Calls} → Steps s s
  step : {s t u : Calls} → Step s t → Steps t u → Steps s u
