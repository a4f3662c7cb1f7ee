-- ===== src/Review/Lifecycle/Omission.antt =====
-- What a review that leaves a finding out may close.
use github_auto_dev.Base.{
  ℕ, String, ◌≡◌, refl, ap, ◌∙◌, ◌≢◌, Option, some, List, [], ◌∷◌, true, false, not, ◌&&◌,
  Bool-cases, inl, inr, In, here, there, has, select_sound, All,
}
use github_auto_dev.Base.Dict
use github_auto_dev.Base.Sort
use github_auto_dev.Db.Findings.{FindingRow, fixed, is_open, Rows, find_by_pr, not_later, is_number}
use github_auto_dev.Review.Lifecycle.{
  State, Outcome, closed, failed, missing, OmissionInput, omitted_input, mark_fixed, close_omitted,
  or_stop, still_open, mark_fixed_by_omission,
}
use github_auto_dev.Review.Lifecycle.Transitions.{Effect, MayFix, mark_fixed-Effect}

-- Every row stands under its own id.
abbrev pub Keyed : Rows → Type 0
Keyed rows = (row : FindingRow) → In row (Dict.values rows) → Dict.get row.id rows ≡ some row

-- Every row of the list that does not block has, in the table, a row of its id other than `key`.
abbrev Apart : String → List FindingRow → Type 0
Apart key rows = All (λ row. row.blocking ≡ false → row.id ≢ key) rows

-- Whatever a call on another finding does, the row at the key stays.
stays :
    (key id : String) (Guard : FindingRow → Type 0) (st : State) (out : Outcome × State)
    → id ≢ key
    → Effect id fixed Guard st out
    → Dict.get key out.1.rows ≡ Dict.get key st.rows
stays key id Guard st (closed row, after) n (old, at_id, was_open, guard, done) =
    done.keeps_others key n
stays key id Guard st (failed e, after) n h = ap (λ s. Dict.get key s.rows) h
stays key id Guard st (missing, after) n h = absurd h

or_stop_stays :
    (key id : String) (go_on : State → Option (List String) × State) (st : State)
    (out : Outcome × State)
    → Dict.get key out.1.rows ≡ Dict.get key st.rows
    → ((s : State) → Dict.get key (go_on s).1.rows ≡ Dict.get key s.rows)
    → Dict.get key (or_stop go_on id out).1.rows ≡ Dict.get key st.rows
or_stop_stays key id go_on st (closed row, after) h g = g after ∙ h
or_stop_stays key id go_on st (failed e, after) h g = h
or_stop_stays key id go_on st (missing, after) h g = h

close_omitted_stays :
    (i : OmissionInput) (now : ℕ) (key : String) (rows : List FindingRow) (st : State)
    → Apart key rows
    → Dict.get key (close_omitted i now rows st).1.rows ≡ Dict.get key st.rows
unfolding close_omitted
close_omitted_stays i now key [] st a = refl
close_omitted_stays i now key (row ∷ rows) st a = elim (Bool-cases row.blocking) [
  | inl t ↦ rw t (close_omitted_stays i now key rows st a.1)
  | inr f ↦ rw f (
      or_stop_stays key row.id (close_omitted i now rows) st
        (mark_fixed (omitted_input i row) now st)
        (stays key row.id (MayFix (omitted_input i row)) st _ (a.0 f)
          (mark_fixed-Effect (omitted_input i row) now st))
        (λ s. close_omitted_stays i now key rows s a.1))
]

All-of :
    (P : FindingRow → Type 0) (xs : List FindingRow) → ((x : FindingRow) → In x xs → P x) → All P xs
All-of P [] h = tt
All-of P (x ∷ xs) h = (h x (here refl), All-of P xs (λ y i. h y (there i)))

listed :
    (i : OmissionInput) (st : State) (row : FindingRow)
    → In row (still_open i st)
    → In row (Dict.values st.rows)
unfolding find_by_pr
listed i st row j =
    let (k, _) =
      select_sound (λ r. is_open r.status && not (has i.new_finding_hashes r.finding_hash))
        (find_by_pr i.pr_number st.rows) row j in
    (select_sound (λ r. is_number r.pr_number i.pr_number) (Dict.values st.rows) row
      (Sort.sort-In not_later row _ k)).0

-- A blocking finding is never closed because a review leaves it out: in a table whose rows stand
-- under their own ids, `markFixedByOmission` leaves every row that blocks as it was, whether or not
-- an exception ends it.
pub omission-keeps_blocking :
    (i : OmissionInput) (now : ℕ) (st : State) (key : String) (row : FindingRow)
    → Keyed st.rows
    → Dict.get key st.rows ≡ some row
    → row.blocking ≡ true
    → Dict.get key (mark_fixed_by_omission i now st).1.rows ≡ some row
unfolding mark_fixed_by_omission
omission-keeps_blocking i now st key row keyed h b =
    close_omitted_stays i now key (still_open i st) st (
      All-of (λ r. r.blocking ≡ false → r.id ≢ key) (still_open i st)
        (λ r j f e. cc (keyed r (listed i st r j), ap (λ k. Dict.get k st.rows) e, h, b, f)))
    ∙ h
