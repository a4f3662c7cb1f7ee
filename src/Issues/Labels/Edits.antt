-- ===== src/Issues/Labels/Edits.antt =====
-- Which edits of labels by others are signalled.
use github_auto_dev.Base.{
  String, ◌≡◌, refl, Bool, true, false, not, ◌&&◌, ◌||◌, List, [], ◌∷◌, ◌++◌, map, arith,
  Bool-cases, inl, inr, has, str_eq, eq_iff, Option, none, some,
}
use github_auto_dev.Base.Sets.{has-select, has-unique}
use github_auto_dev.Issues.Labels.{
  Action, added, removed, Surface, EditInput, ReconciliationSignal, is_owned, label_surface, signal,
  signals, detect_external_edit,
}

abbrev same_action : Action → Action → Bool
same_action added added = true
same_action added removed = false
same_action removed added = false
same_action removed removed = true

-- Whether a signal of this action for this label is among some.
abbrev pub signalled : Action → String → List ReconciliationSignal → Bool
signalled a l [] = false
signalled a l (s ∷ ss) = (same_action a s.action && str_eq s.label l) || signalled a l ss

signalled-append :
    (a : Action) (l : String) (ss ts : List ReconciliationSignal)
    → signalled a l (ss ++ ts) ≡ (signalled a l ss || signalled a l ts)
signalled-append a l [] ts = refl
signalled-append a l (s ∷ ss) ts = ground (arith, signalled-append a l ss ts)

surfaced : Option (Surface × String) → Bool
surfaced none = false
surfaced (some _) = true

surfaced-label_surface : (l : String) → surfaced (label_surface l) ≡ is_owned l
unfolding surfaced label_surface is_owned
surfaced-label_surface l = ground arith

signalled-signal :
    (i : EditInput) (a b : Action) (l m : String) (o : Option (Surface × String))
    → signalled a l (signal i b m o) ≡ (surfaced o && (same_action a b && str_eq m l))
unfolding surfaced
signalled-signal i a b l m none = refl
signalled-signal i a b l m (some _) = ground arith

signalled-signals :
    (i : EditInput) (a b : Action) (l : String) (ls : List String)
    → signalled a l (signals i b ls) ≡ (same_action a b && (has ls l && is_owned l))
signalled-signals i a b l [] = ground arith
signalled-signals i a b l (m ∷ ms) =
    let own = surfaced-label_surface m in
    let first = signalled-signal i a b l m (label_surface m) in
    let more = signalled-signals i a b l ms in
    rw (signalled-append a l (signal i b m (label_surface m)) (signals i b ms))
      (elim (Bool-cases (str_eq m l)) [ inl e ↦ ground (arith, eq_iff m l) | inr n ↦ ground arith ])

-- An external edit is signalled as added exactly for the owned labels that only the later snapshot
-- has, and as removed exactly for those that only the earlier one has.
pub detected :
    (lower : String → String) (i : EditInput) (l : String)
    → (signalled added l (detect_external_edit lower i)
        ≡ ((has (map lower i.after) l && not (has (map lower i.before) l)) && is_owned l))
      × (signalled removed l (detect_external_edit lower i)
          ≡ ((has (map lower i.before) l && not (has (map lower i.after) l)) && is_owned l))
unfolding detect_external_edit
detected lower i l =
    simp (signalled-append, signalled-signals, has-select, has-unique) (ground arith)
