-- ===== src/Review/Lifecycle.antt =====
-- review/finding-lifecycle.ts over the rows of Db.Findings. The clock is an argument, and the audit
-- chain is the list of what has been appended to it.
pub mod Transitions
pub mod Omission
use Prim.Native.Char.{code}
use Prim.Native.String
use github_auto_dev.Base.{
  ℕ, ◌==◌, leb, String, str_eq, truthy, has, Option, none, some, List, [], ◌∷◌, ◌++◌, Bool, true,
  false, not, ◌&&◌, ◌||◌, select, if◌then◌else◌,
}
use github_auto_dev.Base.Text.{is_blank, ◌<>◌}
use github_auto_dev.Db.Findings.{
  FindingRow, FindingStatus, fixed, dismissed, is_open, Rows, FindingPatch, find_by_id, find_by_pr,
  set_status,
}

pub data ReviewerClass : Type 0 where
  code_reviewer security_reviewer : ReviewerClass

abbrev pub same_class : ReviewerClass → ReviewerClass → Bool
same_class code_reviewer code_reviewer = true
same_class security_reviewer security_reviewer = true
same_class _ _ = false

-- `s.startsWith(prefix)`.
abbrev pub starts_with : String → String → Bool
starts_with String.[] s = true
starts_with (String.◌∷◌ c p) String.[] = false
starts_with (String.◌∷◌ c p) (String.◌∷◌ d s) = (code c == code d) && starts_with p s

abbrev pub class_of : FindingRow → ReviewerClass
class_of row = if starts_with "security:" row.category then security_reviewer else code_reviewer

pub record MarkFixedInput : Type 0 where
  pub finding_id : String
  pub reviewer : ReviewerClass
  pub confirmed_at_head_sha : String
  pub actor : String

pub record DismissInput : Type 0 where
  pub finding_id : String
  pub reason : String
  pub by_whom : String

pub data LifecycleError : Type 0 where
  blocking_cannot_auto_close reviewer_class_mismatch empty_dismiss_reason self_dismiss_forbidden
        finding_not_open :
      LifecycleError

-- A record of the audit chain.
pub data AuditEntry : Type 0 where
  finding_fixed :
      (run : Option String) (id hash : String) (reviewer : ReviewerClass) (head actor : String)
      → AuditEntry
  finding_dismissed : (run : Option String) (id hash reason by_whom : String) → AuditEntry

pub record State : Type 0 where
  pub rows : Rows
  pub audit : List AuditEntry

-- `missing` is the repository's own exception.
pub data Outcome : Type 0 where
  closed : FindingRow → Outcome
  failed : LifecycleError → Outcome
  missing : Outcome

-- The update of the row and the audit record, in this order.
abbrev pub record_update : State → AuditEntry → Option (FindingRow × Rows) → Outcome × State
record_update st entry none = (missing, st)
record_update st entry (some (row, rows)) =
    (closed row, record { rows = rows; audit = st.audit ++ entry ∷ [] })

abbrev pub close :
    FindingStatus → (id by_whom reason : String) → (now : ℕ) → AuditEntry → State → Outcome × State
close status id by_whom reason now entry st = record_update st entry (
    set_status id
      (record {
        status = some status;
        closed_by = some (some by_whom);
        close_reason = some (some reason);
        closed_at = some (some now);
      })
      st.rows)

abbrev pub fix_row : MarkFixedInput → ℕ → State → Option FindingRow → Outcome × State
fix_row i now st none = (failed finding_not_open, st)
fix_row i now st (some row) =
    if not (is_open row.status)
    then (failed finding_not_open, st)
    else if not (same_class (class_of row) i.reviewer)
    then (failed reviewer_class_mismatch, st)
    else if row.blocking && not (truthy i.confirmed_at_head_sha)
    then (failed blocking_cannot_auto_close, st)
    else close fixed i.finding_id i.actor
        ("fixed at "
          <> (if truthy i.confirmed_at_head_sha then i.confirmed_at_head_sha else "(same head)"))
        now
        (finding_fixed row.run_id row.id row.finding_hash i.reviewer i.confirmed_at_head_sha
          i.actor)
        st

-- `markFixed`.
unfoldable pub mark_fixed : MarkFixedInput → ℕ → State → Outcome × State
mark_fixed i now st = fix_row i now st (find_by_id i.finding_id st.rows)

abbrev pub dismiss_row : DismissInput → ℕ → State → Option FindingRow → Outcome × State
dismiss_row i now st none = (failed finding_not_open, st)
dismiss_row i now st (some row) =
    if not (is_open row.status)
    then (failed finding_not_open, st)
    else if starts_with "cgao:reviewer:" i.by_whom
    then (failed self_dismiss_forbidden, st)
    else close dismissed i.finding_id i.by_whom i.reason now
        (finding_dismissed row.run_id row.id row.finding_hash i.reason i.by_whom) st

-- `dismiss`.
unfoldable pub dismiss : DismissInput → ℕ → State → Outcome × State
dismiss i now st =
    if is_blank i.reason
    then (failed empty_dismiss_reason, st)
    else dismiss_row i now st (find_by_id i.finding_id st.rows)

pub record OmissionInput : Type 0 where
  pub pr_number : ℕ
  pub new_head_sha : String
  pub new_finding_hashes : List String
  pub actor : String

-- The loop of `markFixedByOmission`: an exception ends it, and leaves what was done before. The
-- second component is the ids that were closed, when nothing was thrown.
abbrev pub omitted_input : OmissionInput → FindingRow → MarkFixedInput
omitted_input i row = record {
  finding_id = row.id;
  reviewer = class_of row;
  confirmed_at_head_sha = i.new_head_sha;
  actor = i.actor;
}

abbrev map_ids : String → Option (List String) → Option (List String)
map_ids id none = none
map_ids id (some ids) = some (id ∷ ids)

abbrev pub or_stop :
    (State → Option (List String) × State) → String → Outcome × State → Option (List String) × State
or_stop go_on id (closed row, st) = let rest = go_on st in (map_ids id rest.0, rest.1)
or_stop go_on id (_, st) = (none, st)

-- A blocking row is passed over.
abbrev pub pass_over :
    Bool
    → (State → Option (List String) × State)
    → String
    → Outcome × State
    → State
    → Option (List String) × State
pass_over true go_on id out st = go_on st
pass_over false go_on id out st = or_stop go_on id out

unfoldable pub close_omitted :
    OmissionInput → ℕ → List FindingRow → State → Option (List String) × State
close_omitted i now [] st = (some [], st)
close_omitted i now (row ∷ rows) st =
    pass_over row.blocking (close_omitted i now rows) row.id
      (mark_fixed (omitted_input i row) now st) st

abbrev pub still_open : OmissionInput → State → List FindingRow
still_open i st =
    select (λ r. is_open r.status && not (has i.new_finding_hashes r.finding_hash))
      (find_by_pr i.pr_number st.rows)

-- `markFixedByOmission`.
unfoldable pub mark_fixed_by_omission : OmissionInput → ℕ → State → Option (List String) × State
mark_fixed_by_omission i now st = close_omitted i now (still_open i st) st
