-- ===== src/Reconcile/Projection.antt =====
-- reconcile/label-reconciler.ts, status-comment-reconciler.ts and projection-reconciler.ts. GitHub
-- is a state `G` behind the two ports, whose calls succeed. The id and the time that an append to
-- the audit chain takes come from `stamp`, SHA-256 and HMAC are parameters.
pub mod Repair
pub mod Settled
use github_auto_dev.Base.{
  ℕ, ◌+◌, String, Option, none, some, Bool, true, false, not, ◌&&◌, ◌||◌, List, [], ◌∷◌,
  if◌then◌else◌, any, select, has, length, is_empty,
}
use github_auto_dev.Base.Sets.{unique, minus}
use github_auto_dev.Base.Text.{◌<>◌, take_chars}
use github_auto_dev.Issues.Words.{starts_with, includes}
use github_auto_dev.Schemas.StableJson.{Json, num, str, obj, field, end}
use github_auto_dev.Audit.Chain.{ChainState, AppendInput, append}

pub record Comment : Type 0 where
  pub id : ℕ
  pub body : String

-- `LabelMutationPort` and `IssueCommentPort`.
pub record Ports {ℓ} (G : Type ℓ) : Type ℓ where
  pub add_label : String → ℕ → String → G → G
  pub remove_label : String → ℕ → String → G → G
  pub list_comments : String → ℕ → G → List Comment
  pub add_comment : String → ℕ → String → G → ℕ × G

pub record LabelReconcileInput : Type 0 where
  pub run_id : String
  pub repo : String
  pub issue_number : ℕ
  pub expected_labels : List String
  pub live_labels : List String

pub data Reason : Type 0 where
  in_sync repaired : Reason

pub record LabelReconcileResult : Type 0 where
  pub added : List String
  pub removed : List String
  pub reason : Reason

pub record StatusCommentInput : Type 0 where
  pub run_id : String
  pub repo : String
  pub issue_number : ℕ
  pub body : String

pub record StatusCommentResult : Type 0 where
  pub recreated : Bool
  pub comment_id : Option ℕ

pub record ActiveIssue : Type 0 where
  pub run_id : String
  pub repo : String
  pub issue_number : ℕ
  pub expected_labels : List String
  pub live_labels : List String
  pub expects_status_comment : Bool
  pub status_comment_body : String

pub record ProjectionReconcileSummary : Type 0 where
  pub scanned : ℕ
  pub comments_recreated : ℕ
  pub labels_repaired : ℕ

-- GitHub and the audit chain.
pub record World {ℓ} (G : Type ℓ) : Type ℓ where
  pub github : G
  pub chain : ChainState

unfoldable pub is_foreign : List String → String → Bool
unfolding starts_with
is_foreign expected l = starts_with "cgao:" l && not (has expected l)

abbrev pub labels_to_add : LabelReconcileInput → List String
labels_to_add i = minus (unique i.expected_labels) (unique i.live_labels)

abbrev pub labels_to_remove : LabelReconcileInput → List String
labels_to_remove i = select (is_foreign (unique i.expected_labels)) (unique i.live_labels)

abbrev old_marker : String
old_marker = "<!-- cgao:status-comment -->"

-- `statusCommentMarker`.
abbrev pub status_comment_marker : (hmac_hex : String → String → String) → String → String → String
status_comment_marker hmac_hex run secret =
    "<!-- cgao:status-comment:" <> take_chars 16 (hmac_hex secret ("status:" <> run)) <> " -->"

abbrev pub is_marked : String → Comment → Bool
is_marked marker c = includes old_marker c.body || includes marker c.body

abbrev label_input : ActiveIssue → LabelReconcileInput
label_input a = record {
  run_id = a.run_id;
  repo = a.repo;
  issue_number = a.issue_number;
  expected_labels = a.expected_labels;
  live_labels = a.live_labels;
}

abbrev is_repaired : Reason → Bool
is_repaired in_sync = false
is_repaired repaired = true

abbrev plus_if : Bool → ℕ → ℕ
plus_if b n = if b then n + 1 else n

module _ {ℓ} {G : Type ℓ} (sha256_hex : String → String) (stamp : ChainState → String × String)
    (ports : Ports G) where
  abbrev record_audit : String → String → Json → World G → World G
  record_audit run kind payload w =
      let i : AppendInput = record {
        run_id = some run;
        kind = kind;
        payload = payload;
        id = (stamp w.chain).0;
        created_at = (stamp w.chain).1;
      } in
      record { github = w.github; chain = (append sha256_hex i w.chain).1 }

  abbrev label_payload : LabelReconcileInput → String → Json
  label_payload i l = obj (
      field "repo" (str i.repo) (
        field "issueNumber" (num i.issue_number)
          (field "label" (str l) (field "source" (str "reconcile.repair") end))))

  -- The loop over the labels to add.
  abbrev pub add_all : LabelReconcileInput → List String → World G → World G
  add_all i [] w = w
  add_all i (l ∷ ls) w =
      let called : World G = record {
        github = ports.add_label i.repo i.issue_number l w.github;
        chain = w.chain;
      } in
      add_all i ls (record_audit i.run_id "label.set" (label_payload i l) called)

  -- The loop over the labels to remove.
  abbrev pub remove_all : LabelReconcileInput → List String → World G → World G
  remove_all i [] w = w
  remove_all i (l ∷ ls) w =
      let called : World G = record {
        github = ports.remove_label i.repo i.issue_number l w.github;
        chain = w.chain;
      } in
      remove_all i ls (record_audit i.run_id "label.unset" (label_payload i l) called)

  -- `LabelReconciler.reconcile`.
  unfoldable pub reconcile_labels : LabelReconcileInput → World G → LabelReconcileResult × World G
  unfolding unique select is_foreign append
  reconcile_labels i w =
      let to_add = labels_to_add i in
      let to_remove = labels_to_remove i in
      let reason : Reason = if is_empty to_add && is_empty to_remove then in_sync else repaired in
      let result : LabelReconcileResult = record {
        added = to_add;
        removed = to_remove;
        reason = reason;
      } in
      (result, remove_all i to_remove (add_all i to_add w))

  module _ (hmac_hex : String → String → String) (marker_secret : String) where
    -- `StatusCommentReconciler.reconcile`.
    unfoldable pub reconcile_comment : StatusCommentInput → World G → StatusCommentResult × World G
    unfolding any includes take_chars append
    reconcile_comment i w =
        let marker = status_comment_marker hmac_hex i.run_id marker_secret in
        let existing = ports.list_comments i.repo i.issue_number w.github in
        let present : StatusCommentResult = record { recreated = false; comment_id = none } in
        let (id, github) =
          ports.add_comment i.repo i.issue_number (i.body <> "\n\n" <> marker) w.github in
        let payload = obj (
          field "repo" (str i.repo)
            (field "issueNumber" (num i.issue_number) (field "commentId" (num id) end))) in
        let posted : World G = record { github = github; chain = w.chain } in
        let made : StatusCommentResult = record { recreated = true; comment_id = some id } in
        if any (is_marked marker) existing
        then (present, w)
        else (made, record_audit i.run_id "status_comment.recreated" payload posted)

    abbrev comment_step : ActiveIssue → World G → StatusCommentResult × World G
    comment_step a w =
        let skipped : StatusCommentResult = record { recreated = false; comment_id = none } in
        let input : StatusCommentInput = record {
          run_id = a.run_id;
          repo = a.repo;
          issue_number = a.issue_number;
          body = a.status_comment_body;
        } in
        if a.expects_status_comment then reconcile_comment input w else (skipped, w)

    -- The loop of `tick`.
    abbrev tick_over :
        List ActiveIssue
        → ProjectionReconcileSummary
        → World G
        → ProjectionReconcileSummary × World G
    tick_over [] s w = (s, w)
    tick_over (a ∷ as_left) s w =
        let (comment, w1) = comment_step a w in
        let (labels, w2) = reconcile_labels (label_input a) w1 in
        let s' : ProjectionReconcileSummary = record {
          scanned = s.scanned;
          comments_recreated = plus_if comment.recreated s.comments_recreated;
          labels_repaired = plus_if (is_repaired labels.reason) s.labels_repaired;
        } in
        tick_over as_left s' w2

    -- `ProjectionReconcilerCoordinator.tick`.
    unfoldable pub tick : List ActiveIssue → World G → ProjectionReconcileSummary × World G
    unfolding reconcile_labels reconcile_comment
    tick issues w =
        let s : ProjectionReconcileSummary = record {
          scanned = length issues;
          comments_recreated = 0;
          labels_repaired = 0;
        } in
        tick_over issues s w
