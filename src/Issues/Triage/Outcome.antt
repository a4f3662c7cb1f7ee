-- ===== src/Issues/Triage/Outcome.antt =====
-- What a triage decides, and what its labels come to.
use github_auto_dev.Base.{
  String, ◌≡◌, refl, ◌↔◌, eq_iff, Bool, true, false, not, ◌&&◌, ◌||◌, List, [], ◌∷◌, ◌++◌, map, ◌∙◌,
  arith, Bool-cases, inl, inr, select, has, is_empty, if◌then◌else◌, str_eq,
}
use github_auto_dev.Base.Sets.{unique, minus, has-append, has-select, has-unique}
use github_auto_dev.Issues.Words.{starts_with}
use github_auto_dev.Issues.Categories.{
  IssueCategory, bug, feature, docs, question, security, chore, unknown, IssueSnapshot, TriageHints,
  InformationRule, classify, evaluate, default_rules,
}
use github_auto_dev.Issues.Labels.{
  IssueStatus, new, triaging, needs_info, ready, in_progress, blocked, reviewing, closed, ignored,
  is_owned, Desired, status_label, kind_label, wanted, diff_labels,
}
use github_auto_dev.Issues.Triage.{is_stale_status, triage}

-- The labels of an issue after some are removed and some are added.
abbrev pub relabelled : List String → List String → List String → List String
relabelled present add remove = select (λ l. not (has remove l)) present ++ add

-- `toLowerCase` leaves the labels of the projection, which are in lower case, as they are.
pub record KeepsLabels (lower : String → String) : Type 0 where
  pub kind : (c : IssueCategory) → lower (kind_label c) ≡ kind_label c
  pub status : (s : IssueStatus) → lower (status_label s) ≡ status_label s

kind_label-is_owned : (c : IssueCategory) → is_owned (kind_label c) ≡ true
unfolding is_owned starts_with
kind_label-is_owned bug = refl
kind_label-is_owned feature = refl
kind_label-is_owned docs = refl
kind_label-is_owned question = refl
kind_label-is_owned security = refl
kind_label-is_owned chore = refl
kind_label-is_owned unknown = refl

status_label-is_owned : (s : IssueStatus) → is_owned (status_label s) ≡ true
unfolding is_owned starts_with
status_label-is_owned new = refl
status_label-is_owned triaging = refl
status_label-is_owned needs_info = refl
status_label-is_owned ready = refl
status_label-is_owned in_progress = refl
status_label-is_owned blocked = refl
status_label-is_owned reviewing = refl
status_label-is_owned closed = refl
status_label-is_owned ignored = refl

-- The labels that the projection wants, and the others that were there.
abbrev pub projected : IssueCategory → IssueStatus → List String → String → Bool
projected c s present l =
    if is_owned l then str_eq (kind_label c) l || str_eq (status_label s) l else has present l

-- Removing what is owned but not wanted, and adding what is wanted but not there.
relabelled_lem :
    (owned : String → Bool) (present want : List String) (l : String)
    → (has want l ≡ true → owned l ≡ true)
    → has
        (relabelled present
          (minus want (unique present))
          (select (λ x. owned x && not (has want x)) (unique present)))
        l
      ≡ (if owned l then has want l else has present l)
relabelled_lem owned present want l sub =
    simp (has-append, has-select, has-unique) (ground (arith, sub))

wanted_lem :
    (lower : String → String) (d : Desired) (l : String)
    → KeepsLabels lower
    → has (wanted lower d) l
      ≡ (str_eq (kind_label d.category) l || str_eq (status_label d.status) l)
wanted_lem lower d l k =
    rw (has-unique (lower (kind_label d.category) ∷ lower (status_label d.status) ∷ []) l)
      (ground (arith, k.kind d.category, k.status d.status))

wanted-is_owned :
    (lower : String → String) (d : Desired) (l : String)
    → KeepsLabels lower
    → has (wanted lower d) l ≡ true
    → is_owned l ≡ true
wanted-is_owned lower d l k h =
    let owns = kind_label-is_owned d.category in
    let owns_status = status_label-is_owned d.status in
    let same = wanted_lem lower d l k in
    ground (arith, eq_iff (kind_label d.category) l, eq_iff (status_label d.status) l)

pub diff_labels_lem :
    (lower : String → String) (existing : List String) (d : Desired) (l : String)
    → KeepsLabels lower
    → has
        (relabelled
          (map lower existing)
          (diff_labels lower existing d).add
          (diff_labels lower existing d).remove)
        l
      ≡ projected d.category d.status (map lower existing) l
unfolding diff_labels
diff_labels_lem lower existing d l k =
    relabelled_lem is_owned (map lower existing) (wanted lower d) l (wanted-is_owned lower d l k)
    ∙ rw (wanted_lem lower d l k) refl

-- Closed: the label `ignored`, and what was there without the other labels of a status.
abbrev pub ignored_labels : List String → String → Bool
ignored_labels present l =
    str_eq (status_label ignored) l || (has present l && not (is_stale_status l))

-- After the labels of a triage are removed and added, an open issue carries of the owned labels
-- exactly those of the decided category and status, and every other label it had. A closed issue
-- carries the label of an ignored one, and what it had without the labels of another status.
pub triage_labels :
    (lower : String → String) (rules : List InformationRule) (i : IssueSnapshot)
    (hints : TriageHints) (l : String)
    → KeepsLabels lower
    → has
        (relabelled
          (map lower i.existing_labels)
          (triage lower rules i hints).labels_to_add
          (triage lower rules i hints).labels_to_remove)
        l
      ≡ (if i.closed
          then ignored_labels (map lower i.existing_labels) l
          else projected
              (triage lower rules i hints).category
              (triage lower rules i hints).status
              (map lower i.existing_labels)
              l)
unfolding triage
triage_labels lower rules i hints l k = elim (Bool-cases i.closed) [
  | inl c ↦ rw c (simp (has-append, has-select) (ground arith))
  | inr o ↦ rw o (diff_labels_lem lower i.existing_labels _ l k)
]

-- The category for which no body is enough.
security-needs :
    (lower : String → String) (i : IssueSnapshot) (hints : TriageHints)
    → is_empty (evaluate (default_rules lower) security i hints) ≡ false
unfolding evaluate default_rules
security-needs lower i hints = ground arith

status_lem :
    (lower : String → String) (rules : List InformationRule) (i : IssueSnapshot)
    (hints : TriageHints)
    → (triage lower rules i hints).status ≡ (
        if i.closed
        then ignored
        else if is_empty (evaluate rules (classify lower i hints) i hints)
        then ready
        else needs_info)
unfolding triage
status_lem lower rules i hints = ground arith

-- By the default rules an issue becomes ready exactly when it is open and its body has everything
-- that its category needs, and an issue that is classified as one of security is never ready.
pub triage-ready_iff :
    (lower : String → String) (i : IssueSnapshot) (hints : TriageHints)
    → (((triage lower (default_rules lower) i hints).status ≡ ready) ↔ (
        (i.closed ≡ false)
        × (is_empty (evaluate (default_rules lower) (classify lower i hints) i hints) ≡ true)))
      × ¬ (
          (classify lower i hints ≡ security)
          × ((triage lower (default_rules lower) i hints).status ≡ ready))
triage-ready_iff lower i hints =
    let status = status_lem lower (default_rules lower) i hints in
    (
      ground arith,
      λ h.
          let needs = security-needs lower i hints in
          let needs' = rw (← h.0) at needs in ground arith,
    )
