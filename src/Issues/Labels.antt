-- ===== src/Issues/Labels.antt =====
-- The labels that show the state: `StatusProjectionService` of issues/triage.ts, and
-- issues/label-projection.ts. `toLowerCase` of the runtime is the parameter `lower`.
pub mod Edits
use github_auto_dev.Base.{
  ℕ, String, Option, none, some, Bool, not, ◌&&◌, ◌||◌, List, [], ◌∷◌, ◌++◌, map, if◌then◌else◌,
  select, has,
}
use github_auto_dev.Base.Text.{◌<>◌}
use github_auto_dev.Base.Sets.{unique, minus}
use github_auto_dev.Issues.Words.{starts_with}
use github_auto_dev.Issues.Categories.{IssueCategory, category_name}

pub data IssueStatus : Type 0 where
  new triaging needs_info ready in_progress blocked reviewing closed ignored : IssueStatus

abbrev pub status_name : IssueStatus → String
status_name new = "new"
status_name triaging = "triaging"
status_name needs_info = "needs_info"
status_name ready = "ready"
status_name in_progress = "in_progress"
status_name blocked = "blocked"
status_name reviewing = "reviewing"
status_name closed = "closed"
status_name ignored = "ignored"

abbrev pub kind_prefix : String
kind_prefix = "cgao:kind/"

abbrev pub status_prefix : String
status_prefix = "cgao:status/"

abbrev pub status_label : IssueStatus → String
status_label s = status_prefix <> status_name s

abbrev pub kind_label : IssueCategory → String
kind_label c = kind_prefix <> category_name c

-- Whether a label belongs to the surface that the projection owns.
unfoldable pub is_owned : String → Bool
unfolding starts_with
is_owned l = starts_with kind_prefix l || starts_with status_prefix l

pub record Desired : Type 0 where
  pub category : IssueCategory
  pub status : IssueStatus

pub record LabelProjection : Type 0 where
  pub add : List String
  pub remove : List String

pub data Surface : Type 0 where
  kind status : Surface

pub data Action : Type 0 where
  added removed : Action

pub record ReconciliationSignal : Type 0 where
  pub label : String
  pub surface : Surface
  pub action : Action
  pub attempted_value : String
  pub authoritative : Desired
  pub source_comment_id : Option ℕ
  pub actor_login : Option String

pub record EditInput : Type 0 where
  pub before : List String
  pub after : List String
  pub authoritative : Desired
  pub source_comment_id : Option ℕ
  pub actor_login : Option String

-- `label.slice(prefix.length)`, for a label that starts with the prefix.
abbrev after_prefix : String → String → String
after_prefix String.[] s = s
after_prefix (String.◌∷◌ c p) String.[] = ""
after_prefix (String.◌∷◌ c p) (String.◌∷◌ d s) = after_prefix p s

-- `labelSurface`.
unfoldable pub label_surface : String → Option (Surface × String)
unfolding starts_with
label_surface l =
    if starts_with kind_prefix l
    then some (kind, kind_prefix)
    else if starts_with status_prefix l
    then some (status, status_prefix)
    else none

abbrev signal : EditInput → Action → String → Option (Surface × String) → List ReconciliationSignal
signal i action l none = []
signal i action l (some (surface, prefix)) =
    record {
      label = l;
      surface = surface;
      action = action;
      attempted_value = after_prefix prefix l;
      authoritative = i.authoritative;
      source_comment_id = i.source_comment_id;
      actor_login = i.actor_login;
    }
    ∷ []

-- One loop of `detectExternalEdit`, over the labels that only one snapshot has.
abbrev signals : EditInput → Action → List String → List ReconciliationSignal
signals i action [] = []
signals i action (l ∷ ls) = signal i action l (label_surface l) ++ signals i action ls

module _ (lower : String → String) where
  -- The labels an issue should have, of those the projection owns.
  abbrev pub wanted : Desired → List String
  wanted d = unique (lower (kind_label d.category) ∷ lower (status_label d.status) ∷ [])

  unfoldable pub diff_labels : List String → Desired → LabelProjection
  unfolding unique select is_owned
  diff_labels existing d =
      let present = unique (map lower existing) in
      let result : LabelProjection = record {
        add = minus (wanted d) present;
        remove = select (λ l. is_owned l && not (has (wanted d) l)) present;
      } in
      result

  -- `LabelProjectionService.apply`.
  unfoldable pub project_labels : List String → Desired → LabelProjection
  unfolding diff_labels
  project_labels existing d =
      let diff = diff_labels existing d in
      let result : LabelProjection = record { add = diff.add; remove = diff.remove } in result

  unfoldable pub detect_external_edit : EditInput → List ReconciliationSignal
  unfolding unique select label_surface
  detect_external_edit i =
      let before = unique (map lower i.before) in
      let after = unique (map lower i.after) in
      signals i added (minus after before) ++ signals i removed (minus before after)
