-- ===== src/Db/RunLock/Exclusion.antt =====
-- Who is inside the lock of a run, in every state that can be reached.
use github_auto_dev.Base.{
  ℕ, suc, ◌-◌, ◌<◌, ◌≡◌, refl, ap, ◌∙◌, ◌⊎◌, inl, inr, String, Option, none, some, true, List, [],
  ◌∷◌, ◌++◌, arith, opt_eq, opt_eq_iff, ltb, length, length-append, All, In, All-In, Bool-cases,
}
use github_auto_dev.Db.RunLock.{
  enter_at, acquire, wake, release, Calls, no_calls, gone_in, called, left, Step, call, resume,
  leave, Steps, done, step,
}

abbrev pub Holds : Calls → String → Type 0
Holds s h = s.lock.holder ≡ some h

-- The holder of the lock is that of every call inside, and they are counted; when no call is
-- inside the lock is free; and while it is free and calls wait, one of them was woken.
pub record IsSound (s : Calls) : Type 0 where
  pub held : All (Holds s) s.inside
  pub counted : s.lock.depth ≡ length s.inside
  pub freed : (s.lock.holder ≡ none) ⊎ (0 < length s.inside)
  pub awake : ((0 < length s.inside) ⊎ (0 < length s.woken)) ⊎ (length s.lock.waiters ≡ 0)

pub length_zero : (xs : List String) → length xs ≡ 0 → xs ≡ []
length_zero [] h = refl
length_zero (x ∷ xs) h = absurd (omega arith)

pub no_calls-IsSound : IsSound no_calls
no_calls-IsSound = record { held = tt; counted = refl; freed = inl refl; awake = inr refl }

nobody : (s : Calls) (xs : List String) → All (Holds s) xs → s.lock.holder ≡ none → xs ≡ []
nobody s [] h e = refl
nobody s (x ∷ xs) h e = cc (h.0)

-- A call that comes to the test of the loop, with the woken calls `woken` behind it.
pub enter-IsSound :
    (h : String) (woken : List String) (s : Calls) (o : Option String)
    → IsSound s
    → s.lock.holder ≡ o
    → IsSound (record {
      lock = (enter_at o h s.lock).1;
      woken = woken;
      inside = gone_in (enter_at o h s.lock).0 h s.inside;
    })
enter-IsSound h woken s none k e =
    let empty : s.inside ≡ [] = nobody s s.inside k.held e in
    let none_in : length s.inside ≡ 0 = ap length empty in
    record {
      held = rw empty (refl, tt);
      counted = omega (arith, none_in);
      freed = inr (omega arith);
      awake = inl (inl (omega arith));
    }
enter-IsSound h woken s (some g) k e =
    let some_in : 0 < length s.inside = elim k.freed [ inl n ↦ cc | inr p ↦ p ] in
    record { held = k.held; counted = k.counted; freed = inr some_in; awake = inl (inl some_in) }

called-IsSound : (h : String) (s : Calls) → IsSound s → IsSound (called h s)
unfolding called acquire
called-IsSound h s k = elim (Bool-cases (opt_eq s.lock.holder (some h))) [
  | inl same ↦ rw same (record {
    held = ((opt_eq_iff s.lock.holder (some h)).0 same, k.held);
    counted = omega (arith, k.counted);
    freed = inr (omega arith);
    awake = inl (inl (omega arith));
  })
  | inr other ↦ rw other (enter-IsSound h s.woken s s.lock.holder k refl)
]

-- One of the calls inside goes.
All-middle :
    (P : String → Type 0) (xs : List String) (x : String) (ys : List String)
    → All P (xs ++ x ∷ ys)
    → P x × All P (xs ++ ys)
All-middle P [] x ys h = h
All-middle P (z ∷ zs) x ys h = let r = All-middle P zs x ys h.1 in (r.0, (h.0, r.1))

pub length-middle :
    (xs : List String) (x : String) (ys : List String)
    → length (xs ++ x ∷ ys) ≡ suc (length (xs ++ ys))
length-middle [] x ys = refl
length-middle (z ∷ zs) x ys = omega (arith, length-middle zs x ys)

-- A release of the whole lock wakes a call where one waits.
freed-IsSound :
    (s : Calls) (inside : List String) (depth : ℕ) (waiters : List String)
    → inside ≡ []
    → depth ≡ 0
    → IsSound (record {
      lock = record { holder = none; depth = depth; waiters = (wake waiters).1 };
      woken = s.woken ++ (wake waiters).0;
      inside = inside;
    })
freed-IsSound s inside depth [] e d = record {
  held = rw e tt;
  counted = rw (e, d) refl;
  freed = inl refl;
  awake = inr refl;
}
freed-IsSound s inside depth (w ∷ ws) e d =
    let p = length-append s.woken (w ∷ []) in
    record {
      held = rw e tt;
      counted = rw (e, d) refl;
      freed = inl refl;
      awake = inl (inr (omega (arith, p)));
    }

pub left-IsSound :
    (h : String) (before after : List String) (s : Calls)
    → IsSound s
    → s.inside ≡ before ++ h ∷ after
    → IsSound (left h (before ++ after) s)
unfolding left release
left-IsSound h before after s k e =
    let all_held : All (Holds s) (before ++ h ∷ after) = rw (← e) k.held in
    let (mine, others) = All-middle (Holds s) before h after all_held in
    let same : opt_eq s.lock.holder (some h) ≡ true = (opt_eq_iff s.lock.holder (some h)).1 mine in
    let fewer : length s.inside ≡ suc (length (before ++ after)) =
      ap length e ∙ length-middle before h after in
    let count = k.counted in
    rw same (elim (Bool-cases (ltb 0 (s.lock.depth - 1))) [
      | inl more ↦ rw more (record {
        held = others;
        counted = omega arith;
        freed = inr (ground arith);
        awake = inl (inl (ground arith));
      })
      | inr last ↦ rw last (
          freed-IsSound s (before ++ after) (s.lock.depth - 1) s.lock.waiters
            (length_zero (before ++ after) (ground arith)) (ground arith))
    ])

Step-IsSound : {s t : Calls} → Step s t → IsSound s → IsSound t
Step-IsSound {s} (call h) k = called-IsSound h s k
Step-IsSound {s} (resume h woken e) k = enter-IsSound h woken s s.lock.holder k refl
Step-IsSound {s} (leave h before after e) k = left-IsSound h before after s k e

pub Steps-IsSound : {s t : Calls} → Steps s t → IsSound s → IsSound t
Steps-IsSound done k = k
Steps-IsSound (step one more) k = Steps-IsSound more (Step-IsSound one k)

-- Whatever calls of `with` came, went on and ended, all that are inside at a time have the same
-- holder, which is that of the lock.
pub exclusive :
    {s : Calls} (a b : String)
    → Steps no_calls s
    → In a s.inside
    → In b s.inside
    → (a ≡ b) × (s.lock.holder ≡ some a)
exclusive {s} a b run i j =
    let k = Steps-IsSound run no_calls-IsSound in
    let mine = All-In (Holds s) a s.inside k.held i in
    let other = All-In (Holds s) b s.inside k.held j in (cc, mine)
