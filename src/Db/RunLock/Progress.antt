-- ===== src/Db/RunLock/Progress.antt =====
-- No call waits for ever on the lock of a run, as long as what runs inside comes to an end.
use github_auto_dev.Base.{
  ℕ, suc, ◌+◌, ◌-◌, ◌*◌, ◌<◌, ◌≤◌, ◌≡◌, refl, ap, ◌∙◌, ◌⊎◌, inl, inr, String, Option, none, some,
  List, [], ◌∷◌, ◌++◌, arith, opt_eq, ltb, length, length-append, Bool-cases,
}
use github_auto_dev.Base.Sorted.{count, count-append, count-middle}
use github_auto_dev.Db.RunLock.{
  enter_at, acquire, wake, release, Calls, no_calls, gone_in, called, resumed, left, Step, call,
  resume, leave, Steps, done, step,
}
use github_auto_dev.Db.RunLock.Exclusion.{
  IsSound, no_calls-IsSound, Steps-IsSound, length_zero, length-middle,
}

-- The holders of the calls that come in a step, and of those that have got the lock and leave it.
abbrev pub comes : {s t : Calls} → Step s t → List String
comes (call h) = h ∷ []
comes (resume h woken e) = []
comes (leave h before after e) = []

abbrev pub goes : {s t : Calls} → Step s t → List String
goes (call h) = []
goes (resume h woken e) = []
goes (leave h before after e) = h ∷ []

-- The same of any number of steps, and their number.
abbrev pub came : {s t : Calls} → Steps s t → List String
came done = []
came (step one more) = comes one ++ came more

abbrev pub gone : {s t : Calls} → Steps s t → List String
gone done = []
gone (step one more) = goes one ++ gone more

abbrev pub steps_of : {s t : Calls} → Steps s t → ℕ
steps_of done = 0
steps_of (step one more) = suc (steps_of more)

-- Nobody is inside, nobody waits, and the lock is free.
abbrev pub IsIdle : Calls → Type 0
IsIdle s = (s.lock.holder ≡ none) × ((s.lock.waiters ≡ []) × ((s.woken ≡ []) × (s.inside ≡ [])))

-- How many calls of a holder are under way.
abbrev under_way : String → Calls → ℕ
under_way g s = count g s.inside + (count g s.woken + count g s.lock.waiters)

wake_kept :
    (g : String) (waiters : List String)
    → count g waiters ≡ count g (wake waiters).0 + count g (wake waiters).1
wake_kept g [] = refl
wake_kept g (w ∷ ws) = omega arith

enter_kept :
    (g h : String) (woken : List String) (s : Calls) (o : Option String)
    → count g (gone_in (enter_at o h s.lock).0 h s.inside)
        + (count g woken + count g (enter_at o h s.lock).1.waiters)
      ≡ count g (h ∷ []) + (count g s.inside + (count g woken + count g s.lock.waiters))
enter_kept g h woken s none = omega arith
enter_kept g h woken s (some k) = omega (arith, count-append g s.lock.waiters (h ∷ []))

called_kept :
    (g h : String) (s : Calls) → under_way g (called h s) ≡ count g (h ∷ []) + under_way g s
unfolding called acquire
called_kept g h s = elim (Bool-cases (opt_eq s.lock.holder (some h))) [
  | inl same ↦ rw same (omega arith)
  | inr other ↦ rw other (enter_kept g h s.woken s s.lock.holder)
]

left_kept :
    (g h : String) (inside : List String) (s : Calls)
    → under_way g (left h inside s) ≡ count g inside + (count g s.woken + count g s.lock.waiters)
unfolding left release
left_kept g h inside s =
    let none_woken = count-append g s.woken [] in
    let some_woken = count-append g s.woken (wake s.lock.waiters).0 in
    let kept = wake_kept g s.lock.waiters in
    elim (Bool-cases (opt_eq s.lock.holder (some h))) [
      | inl same ↦ rw same (elim (Bool-cases (ltb 0 (s.lock.depth - 1))) [
        | inl more ↦ rw more (omega arith)
        | inr last ↦ rw last (omega arith)
      ])
      | inr other ↦ rw other (omega arith)
    ]

-- A step loses no call.
Step_kept :
    (g : String) {s t : Calls} (one : Step s t)
    → under_way g s + count g (comes one) ≡ under_way g t + count g (goes one)
Step_kept g {s} (call h) = omega (arith, called_kept g h s)
Step_kept g {s} (resume h woken e) =
    let first : count g s.woken ≡ count g (h ∷ woken) = ap (count g) e in
    omega (arith, first, enter_kept g h woken s s.lock.holder)
Step_kept g {s} (leave h before after e) =
    let mine : count g s.inside ≡ count g (before ++ h ∷ after) = ap (count g) e in
    omega (arith, mine, count-middle g before h after, left_kept g h (before ++ after) s)

Steps_kept :
    (g : String) {s t : Calls} (run : Steps s t)
    → under_way g s + count g (came run) ≡ under_way g t + count g (gone run)
Steps_kept g done = refl
Steps_kept g (step one more) = omega (
  arith,
  Step_kept g one,
  Steps_kept g more,
  count-append g (comes one) (came more),
  count-append g (goes one) (gone more),
)

-- What a run without new calls uses up: two for every call under way, one more for a woken one.
abbrev pub left_over : Calls → ℕ
left_over s = 2 * (length s.inside + length s.lock.waiters) + 3 * length s.woken

wake_less :
    (waiters : List String)
    → (length waiters ≡ length (wake waiters).0 + length (wake waiters).1)
      × (length (wake waiters).0 ≤ 1)
wake_less [] = (omega arith, omega arith)
wake_less (w ∷ ws) = (omega arith, omega arith)

enter_less :
    (h : String) (s : Calls) (o : Option String)
    → length (gone_in (enter_at o h s.lock).0 h s.inside) + length (enter_at o h s.lock).1.waiters
      ≡ suc (length s.inside + length s.lock.waiters)
enter_less h s none = omega arith
enter_less h s (some k) = omega (arith, length-append s.lock.waiters (h ∷ []))

left_less :
    (h : String) (before after : List String) (s : Calls)
    → s.inside ≡ before ++ h ∷ after
    → left_over (left h (before ++ after) s) < left_over s
unfolding left release
left_less h before after s e =
    let inside : length s.inside ≡ suc (length (before ++ after)) =
      ap length e ∙ length-middle before h after in
    let (split, one) = wake_less s.lock.waiters in
    let none_woken = length-append s.woken [] in
    let some_woken = length-append s.woken (wake s.lock.waiters).0 in
    elim (Bool-cases (opt_eq s.lock.holder (some h))) [
      | inl same ↦ rw same (elim (Bool-cases (ltb 0 (s.lock.depth - 1))) [
        | inl more ↦ rw more (omega arith)
        | inr last ↦ rw last (omega arith)
      ])
      | inr other ↦ rw other (omega arith)
    ]

Step_less : {s t : Calls} (one : Step s t) → comes one ≡ [] → left_over t < left_over s
Step_less (call h) n = cc
Step_less {s} (resume h woken e) n =
    let first : length s.woken ≡ suc (length woken) = ap length e in
    omega (arith, first, enter_less h s s.lock.holder)
Step_less {s} (leave h before after e) n = left_less h before after s e

append_nil : (xs ys : List String) → xs ++ ys ≡ [] → (xs ≡ []) × (ys ≡ [])
append_nil [] ys e = (refl, e)
append_nil (x ∷ xs) ys e = cc

Steps_less :
    {s t : Calls} (more : Steps s t) → came more ≡ [] → steps_of more + left_over t ≤ left_over s
Steps_less done n = omega arith
Steps_less (step one more) n =
    let (first, rest) = append_nil (comes one) (came more) n in
    omega (arith, Step_less one first, Steps_less more rest)

-- A step other than a new call can be taken.
abbrev pub GoesOn : Calls → Type 0
GoesOn s = (t : Calls) × (one : Step s t) × (comes one ≡ [])

next_move :
    (s : Calls) (inside woken : List String)
    → IsSound s
    → s.inside ≡ inside
    → s.woken ≡ woken
    → GoesOn s ⊎ IsIdle s
next_move s (h ∷ rest) woken k ei ew = inl (left h rest s, leave h [] rest ei, refl)
next_move s [] (h ∷ woken) k ei ew = inl (resumed h woken s, resume h woken ew, refl)
next_move s [] [] k ei ew =
    let free : s.lock.holder ≡ none = elim k.freed [ inl n ↦ n | inr p ↦ absurd (ground arith) ] in
    let none_wait : length s.lock.waiters ≡ 0 = elim k.awake [
      | inl (inl p) ↦ absurd (ground arith)
      | inl (inr p) ↦ absurd (ground arith)
      | inr z ↦ z
    ] in
    inr (free, (length_zero s.lock.waiters none_wait, (ew, ei)))

-- Every call has left that came.
abbrev pub AllLeft : {s t : Calls} → Steps no_calls s → Steps s t → Type 0
AllLeft run more = (g : String) → count g (came run) ≡ count g (gone run) + count g (gone more)

all_left :
    {s t : Calls} (run : Steps no_calls s) (more : Steps s t)
    → came more ≡ []
    → IsIdle t
    → AllLeft run more
all_left {s} {t} run more n (free, (waiters, (woken, inside))) g =
    let nothing : under_way g t ≡ 0 = rw (waiters, woken, inside) (omega arith) in
    let quiet : count g (came more) ≡ 0 = rw n (omega arith) in
    omega (arith, nothing, quiet, Steps_kept g run, Steps_kept g more)

-- No wake-up and no call is lost. From every state that calls of `with` reach, take any further steps
-- in any order, as long as no new call comes. They are no more than `left_over` of that state; and
-- after them either one more such step can be taken, or the lock is free, nobody is inside, waits or
-- is woken, and of every holder exactly as many calls have got the lock and left it as ever came.
pub served :
    {s t : Calls} (run : Steps no_calls s) (more : Steps s t)
    → came more ≡ []
    → (steps_of more ≤ left_over s) × (GoesOn t ⊎ (IsIdle t × AllLeft run more))
served {s} {t} run more n =
    let few = Steps_less more n in
    let k = Steps-IsSound more (Steps-IsSound run no_calls-IsSound) in
    (
      omega (arith, few),
      elim (next_move t t.inside t.woken k refl refl) [
        | inl on ↦ inl on
        | inr idle ↦ inr (idle, all_left run more n idle)
      ],
    )
