-- ===== src/Review/Lifecycle/Transitions.antt =====
-- When a finding is closed, and what closing it changes.
use github_auto_dev.Base.{
  ℕ, String, truthy, ◌≡◌, refl, ◌≢◌, ap, Option, none, some, [], ◌∷◌, ◌++◌, true, false, not, ◌&&◌,
  arith, Bool-cases, inl, inr,
}
use github_auto_dev.Base.Dict
use github_auto_dev.Base.Text.{is_blank}
use github_auto_dev.Db.Findings.{
  FindingRow, FindingStatus, opened, fixed, dismissed, is_open, Rows, FindingPatch, find_by_id,
  set_found, set_status, patched,
}
use github_auto_dev.Review.Lifecycle.{
  same_class, class_of, starts_with, MarkFixedInput, DismissInput, AuditEntry, State, Outcome,
  closed, failed, missing, close, fix_row, mark_fixed, dismiss_row, dismiss,
}

-- What closing the finding at an id has done.
pub record Closed (id : String) (row : FindingRow) (status : FindingStatus) (before after : State)
    : Type 0 where
  pub now_row : FindingRow
  pub is_stored : Dict.get id after.rows ≡ some now_row
  pub has_status : now_row.status ≡ status
  pub keeps_blocking : now_row.blocking ≡ row.blocking
  pub keeps_others : (key : String) → id ≢ key → Dict.get key after.rows ≡ Dict.get key before.rows
  pub entry : AuditEntry
  pub is_audited : after.audit ≡ before.audit ++ entry ∷ []

-- Either the finding was closed, under the guard, or an error left everything as it was.
abbrev pub Effect :
    String → FindingStatus → (FindingRow → Type 0) → State → Outcome × State → Type 0
Effect id status Guard st (closed row, after) =
    (old : FindingRow) × (Dict.get id st.rows ≡ some old)
    × (old.status ≡ opened)
    × Guard old
    × Closed id old status st after
Effect id status Guard st (failed e, after) = after ≡ st
Effect id status Guard st (missing, after) = ⊥

set_status-found :
    (id : String) (patch : FindingPatch) (rows : Rows) (row : FindingRow)
    → Dict.get id rows ≡ some row
    → set_status id patch rows ≡ some (patched row patch, Dict.set id (patched row patch) rows)
unfolding set_status
set_status-found id patch rows row h = ap (set_found id patch rows) h

is_open_sound : (s : FindingStatus) → is_open s ≡ true → s ≡ opened
is_open_sound opened h = refl
is_open_sound fixed h = cc
is_open_sound dismissed h = cc

close-Effect :
    (status : FindingStatus) (id by_whom reason : String) (now : ℕ) (entry : AuditEntry)
    (st : State) (row : FindingRow) (Guard : FindingRow → Type 0)
    → Dict.get id st.rows ≡ some row
    → is_open row.status ≡ true
    → Guard row
    → Effect id status Guard st (close status id by_whom reason now entry st)
close-Effect status id by_whom reason now entry st row Guard h is guard =
    let patch : FindingPatch = record {
      status = some status;
      closed_by = some (some by_whom);
      close_reason = some (some reason);
      closed_at = some (some now);
    } in
    rw (set_status-found id patch st.rows row h) (
      row,
      h,
      is_open_sound row.status is,
      guard,
      record {
        now_row = patched row patch;
        is_stored = Dict.get-set_self id (patched row patch) st.rows;
        has_status = refl;
        keeps_blocking = refl;
        keeps_others = λ key n. Dict.get-set_ne id key (patched row patch) st.rows n;
        entry = entry;
        is_audited = refl;
      },
    )

-- Who may mark a finding as fixed: a reviewer of its class, who names a head if it is blocking.
abbrev pub MayFix : MarkFixedInput → FindingRow → Type 0
MayFix i row =
    (same_class (class_of row) i.reviewer ≡ true)
    × (row.blocking ≡ true → truthy i.confirmed_at_head_sha ≡ true)

fix_row-Effect :
    (i : MarkFixedInput) (now : ℕ) (st : State) (o : Option FindingRow)
    → Dict.get i.finding_id st.rows ≡ o
    → Effect i.finding_id fixed (MayFix i) st (fix_row i now st o)
fix_row-Effect i now st none h = refl
fix_row-Effect i now st (some row) h = elim (Bool-cases (is_open row.status)) [
  | inr f ↦ rw f refl
  | inl is ↦ elim (Bool-cases (same_class (class_of row) i.reviewer)) [
    | inr f ↦ rw (is, f) refl
    | inl same ↦ elim (Bool-cases (row.blocking && not (truthy i.confirmed_at_head_sha))) [
      | inl t ↦ rw (is, same, t) refl
      | inr f ↦
          rw (is, same, f)
            (close-Effect fixed i.finding_id i.actor _ now _ st row (MayFix i) h is
              (same, ground arith))
    ]
  ]
]

-- `markFixed` closes the finding as fixed only if it was open, the reviewer is of its class and,
-- where it blocks, a head is named. It then changes that row alone and appends one audit record.
-- Otherwise it throws one of its own errors and changes nothing.
pub mark_fixed-Effect :
    (i : MarkFixedInput) (now : ℕ) (st : State)
    → Effect i.finding_id fixed (MayFix i) st (mark_fixed i now st)
unfolding mark_fixed find_by_id
mark_fixed-Effect i now st = fix_row-Effect i now st _ refl

-- Who may dismiss a finding: no reviewer of the program, and only with a reason.
abbrev pub MayDismiss : DismissInput → FindingRow → Type 0
MayDismiss i row = (starts_with "cgao:reviewer:" i.by_whom ≡ false) × (is_blank i.reason ≡ false)

dismiss_row-Effect :
    (i : DismissInput) (now : ℕ) (st : State) (o : Option FindingRow)
    → is_blank i.reason ≡ false
    → Dict.get i.finding_id st.rows ≡ o
    → Effect i.finding_id dismissed (MayDismiss i) st (dismiss_row i now st o)
dismiss_row-Effect i now st none said h = refl
dismiss_row-Effect i now st (some row) said h = elim (Bool-cases (is_open row.status)) [
  | inr f ↦ rw f refl
  | inl is ↦ elim (Bool-cases (starts_with "cgao:reviewer:" i.by_whom)) [
    | inl t ↦ rw (is, t) refl
    | inr f ↦
        rw (is, f)
          (close-Effect dismissed i.finding_id i.by_whom i.reason now _ st row (MayDismiss i) h is
            (f, said))
  ]
]

-- `dismiss` closes the finding as dismissed only if it was open, a reason is given that is not just
-- white space, and the actor is none of the program's reviewers. It then changes that row alone and
-- appends one audit record. Otherwise it throws one of its own errors and changes nothing.
pub dismiss-Effect :
    (i : DismissInput) (now : ℕ) (st : State)
    → Effect i.finding_id dismissed (MayDismiss i) st (dismiss i now st)
unfolding dismiss find_by_id
dismiss-Effect i now st = elim (Bool-cases (is_blank i.reason)) [
  | inl t ↦ rw t refl
  | inr f ↦ rw f (dismiss_row-Effect i now st _ f refl)
]
