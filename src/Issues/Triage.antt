-- ===== src/Issues/Triage.antt =====
-- `IssueTriageService` of issues/triage.ts: the whole decision on an issue.
pub mod Outcome
use github_auto_dev.Base.{
  String, Bool, true, false, not, ◌&&◌, List, [], ◌∷◌, map, if◌then◌else◌, is_empty, select,
}
use github_auto_dev.Issues.Words.{starts_with, ends_with}
use github_auto_dev.Issues.Categories.{
  IssueCategory, IssueSnapshot, TriageHints, InformationRule, unknown, classify, evaluate,
}
use github_auto_dev.Issues.Labels.{
  IssueStatus, ready, needs_info, ignored, Desired, status_prefix, status_label, diff_labels,
}

pub record TriageDecision : Type 0 where
  pub category : IssueCategory
  pub status : IssueStatus
  pub labels_to_add : List String
  pub labels_to_remove : List String
  pub missing_fields : List String
  pub ignored_because_closed : Bool

-- A label of a status other than one that ends in `/ignored`.
unfoldable pub is_stale_status : String → Bool
unfolding starts_with ends_with
is_stale_status l = starts_with status_prefix l && not (ends_with "/ignored" l)

module _ (lower : String → String) (rules : List InformationRule) where
  -- `staleCgaoLabels` with `statusOnly`, as its one call has it.
  abbrev stale_labels : List String → List String
  stale_labels existing = select is_stale_status (map lower existing)

  abbrev closed_decision : IssueSnapshot → TriageDecision
  closed_decision i = record {
    category = unknown;
    status = ignored;
    labels_to_add = status_label ignored ∷ [];
    labels_to_remove = stale_labels i.existing_labels;
    missing_fields = [];
    ignored_because_closed = true;
  }

  abbrev open_decision : IssueSnapshot → TriageHints → TriageDecision
  open_decision i hints =
      let category = classify lower i hints in
      let missing = evaluate rules category i hints in
      let status : IssueStatus = if is_empty missing then ready else needs_info in
      let desired : Desired = record { category = category; status = status } in
      let diff = diff_labels lower i.existing_labels desired in
      let decision : TriageDecision = record {
        category = category;
        status = status;
        labels_to_add = diff.add;
        labels_to_remove = diff.remove;
        missing_fields = missing;
        ignored_because_closed = false;
      } in
      decision

  unfoldable pub triage : IssueSnapshot → TriageHints → TriageDecision
  unfolding classify evaluate diff_labels select is_stale_status
  triage i hints = if i.closed then closed_decision i else open_decision i hints
