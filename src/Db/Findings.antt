-- ===== src/Db/Findings.antt =====
-- packages/db/src/repos/review-finding-repo.ts: the rows of review findings. A time is in ms.
use github_auto_dev.Base.{
  ℕ, ◌==◌, ltb, String, str_eq, opt_eq, Option, none, some, List, Bool, true, ◌&&◌, false, or_else,
  select, find,
}
use github_auto_dev.Base.Dict
use github_auto_dev.Base.Sort

-- 'open', 'fixed' and 'dismissed'.
pub data FindingStatus : Type 0 where
  opened fixed dismissed : FindingStatus

abbrev pub is_open : FindingStatus → Bool
is_open opened = true
is_open _ = false

pub record NewFinding : Type 0 where
  pub id : String
  pub finding_hash : String
  pub run_id : Option String
  pub pr_number : Option ℕ
  pub head_sha : String
  pub severity : String
  pub category : String
  pub file_path : Option String
  pub line_number : Option ℕ
  pub title : String
  pub description : String
  pub recommendation : Option String
  pub blocking : Bool
  pub status : FindingStatus

pub record FindingRow : Type 0 where
  pub id : String
  pub finding_hash : String
  pub run_id : Option String
  pub pr_number : Option ℕ
  pub head_sha : String
  pub severity : String
  pub category : String
  pub file_path : Option String
  pub line_number : Option ℕ
  pub title : String
  pub description : String
  pub recommendation : Option String
  pub blocking : Bool
  pub status : FindingStatus
  pub closed_by : Option String
  pub close_reason : Option String
  pub created_at : ℕ
  pub closed_at : Option ℕ

abbrev pub Rows : Type 0
Rows = List (String × FindingRow)

abbrev new_row : NewFinding → ℕ → FindingRow
new_row input now = record {
  id = input.id;
  finding_hash = input.finding_hash;
  run_id = input.run_id;
  pr_number = input.pr_number;
  head_sha = input.head_sha;
  severity = input.severity;
  category = input.category;
  file_path = input.file_path;
  line_number = input.line_number;
  title = input.title;
  description = input.description;
  recommendation = input.recommendation;
  blocking = input.blocking;
  status = input.status;
  closed_by = none;
  close_reason = none;
  created_at = now;
  closed_at = none;
}

unfoldable pub find_by_id : String → Rows → Option FindingRow
find_by_id id rows = Dict.get id rows

unfoldable pub find_by_hash : String → Rows → Option FindingRow
find_by_hash hash rows = find (λ r. str_eq r.finding_hash hash) (Dict.values rows)

unfoldable pub upsert : NewFinding → ℕ → Rows → FindingRow × Rows
unfolding find_by_hash
upsert input now rows = elim (find_by_hash input.finding_hash rows) [
  | some existing ↦ (existing, rows)
  | none ↦ (new_row input now, Dict.set input.id (new_row input now) rows)
]

-- The comparator of both listings, `a.createdAt < b.createdAt` or equal.
abbrev pub not_later : FindingRow → FindingRow → Bool
not_later a b = ltb a.created_at b.created_at

unfoldable pub find_by_run : String → Rows → List FindingRow
find_by_run run rows =
    Sort.sort not_later (select (λ r. opt_eq r.run_id (some run)) (Dict.values rows))

abbrev pub is_number : Option ℕ → ℕ → Bool
is_number none n = false
is_number (some m) n = m == n

unfoldable pub find_by_pr : ℕ → Rows → List FindingRow
find_by_pr pr rows = Sort.sort not_later (select (λ r. is_number r.pr_number pr) (Dict.values rows))

unfoldable pub find_blocking_by_pr : ℕ → Rows → List FindingRow
find_blocking_by_pr pr rows = select (λ r. r.blocking && is_open r.status) (find_by_pr pr rows)

-- A field that the patch leaves undefined is `none`.
pub record FindingPatch : Type 0 where
  pub status : Option FindingStatus
  pub closed_by : Option (Option String)
  pub close_reason : Option (Option String)
  pub closed_at : Option (Option ℕ)

abbrev pub patched : FindingRow → FindingPatch → FindingRow
patched row patch = record row {
  status = or_else patch.status row.status;
  closed_by = or_else patch.closed_by row.closed_by;
  close_reason = or_else patch.close_reason row.close_reason;
  closed_at = or_else patch.closed_at row.closed_at;
}

abbrev pub set_found : String → FindingPatch → Rows → Option FindingRow → Option (FindingRow × Rows)
set_found id patch rows none = none
set_found id patch rows (some row) = some (patched row patch, Dict.set id (patched row patch) rows)

-- `none` is `ReviewFindingNotFoundError`.
unfoldable pub set_status : String → FindingPatch → Rows → Option (FindingRow × Rows)
set_status id patch rows = set_found id patch rows (Dict.get id rows)
