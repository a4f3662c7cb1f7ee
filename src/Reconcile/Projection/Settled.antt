-- ===== src/Reconcile/Projection/Settled.antt =====
-- A reconciliation of what is in step changes nothing, and what was reconciled is in step.
use github_auto_dev.Base.{
  ℕ, String, ◌≡◌, refl, ◌⊎◌, none, true, false, List, [], ◌∷◌, arith, any, has, length, All,
  Bool-cases, inl, inr, any-In, eq_refl,
}
use github_auto_dev.Base.Sets.{has-select, has-unique}
use github_auto_dev.Base.Text.{◌<>◌}
use github_auto_dev.Issues.Words.{includes}
use github_auto_dev.Issues.Words.Search.{includes-append, includes_end}
use github_auto_dev.Audit.Chain.{ChainState}
use github_auto_dev.Reconcile.Projection.{
  Ports, LabelReconcileInput, in_sync, StatusCommentInput, World, is_foreign, labels_to_add,
  labels_to_remove, reconcile_labels, ActiveIssue, ProjectionReconcileSummary,
  status_comment_marker, is_marked, reconcile_comment, tick, tick_over, label_input, comment_step,
}
use github_auto_dev.Reconcile.Projection.Repair.{GithubLaws, repaired_labels, repaired_lem}

all_has : (xs : List String) → ((m : String) → has xs m ≡ false) → xs ≡ []
all_has [] h = refl
all_has (x ∷ xs) h = let q = h x in let r = eq_refl x in absurd (ground arith)

-- The labels need no repair.
abbrev pub LabelsSettled : List String → List String → Type 0
LabelsSettled expected live = (m : String) → has live m ≡ repaired_labels expected live m

nothing_to_add :
    (i : LabelReconcileInput) → LabelsSettled i.expected_labels i.live_labels → labels_to_add i ≡ []
nothing_to_add i h =
    all_has (labels_to_add i) λ m. let q = h m in simp (has-select, has-unique) (ground arith)

nothing_to_remove :
    (i : LabelReconcileInput)
    → LabelsSettled i.expected_labels i.live_labels
    → labels_to_remove i ≡ []
unfolding is_foreign
nothing_to_remove i h =
    all_has (labels_to_remove i) λ m. let q = h m in simp (has-select, has-unique) (ground arith)

-- The same input with other labels seen on the issue.
abbrev pub reread : LabelReconcileInput → List String → LabelReconcileInput
reread i live = record {
  run_id = i.run_id;
  repo = i.repo;
  issue_number = i.issue_number;
  expected_labels = i.expected_labels;
  live_labels = live;
}

module _ {ℓ} {G : Type ℓ} (sha256_hex : String → String) (stamp : ChainState → String × String)
    (ports : Ports G) where
  abbrev pub after_labels : LabelReconcileInput → World G → World G
  after_labels i w = (reconcile_labels sha256_hex stamp ports i w).1

  in_sync_lem :
      (i : LabelReconcileInput) (w : World G)
      → LabelsSettled i.expected_labels i.live_labels
      → reconcile_labels sha256_hex stamp ports i w
        ≡ (record { added = []; removed = []; reason = in_sync }, w)
  unfolding reconcile_labels
  in_sync_lem i w h = rw (nothing_to_add i h, nothing_to_remove i h) refl

  module _ (hmac_hex : String → String → String) (secret : String) where
    -- The status comment of a run is on its issue.
    abbrev pub HasComment : String → String → ℕ → G → Type 0
    HasComment run repo n g =
        any (is_marked (status_comment_marker hmac_hex run secret)) (ports.list_comments repo n g)
        ≡ true

    reconcile_comment_kept :
        (i : StatusCommentInput) (w : World G)
        → HasComment i.run_id i.repo i.issue_number w.github
        → reconcile_comment sha256_hex stamp ports hmac_hex secret i w
          ≡ (record { recreated = false; comment_id = none }, w)
    unfolding reconcile_comment
    reconcile_comment_kept i w h = rw h refl

    posted :
        (i : StatusCommentInput) (labels : String → ℕ → G → List String)
        → GithubLaws ports labels
        → (w : World G)
        → HasComment i.run_id i.repo i.issue_number
            (reconcile_comment sha256_hex stamp ports hmac_hex secret i w).1.github
    unfolding reconcile_comment
    posted i labels laws w =
        let marker = status_comment_marker hmac_hex i.run_id secret in
        elim (Bool-cases
          (any (is_marked marker) (ports.list_comments i.repo i.issue_number w.github))) [
            | inl t ↦ rw t t
            | inr f ↦ rw f (
                any-In (is_marked marker) _ _
                  (laws.commented i.repo i.issue_number (i.body <> "\n\n" <> marker) w.github)
                  (let e : includes marker (i.body <> "\n\n" <> marker) ≡ true =
                      includes-append marker i.body ("\n\n" <> marker)
                        (includes_end marker "\n\n") in
                    ground arith))
          ]

    -- An issue needs no repair: its labels are as they would be left, and its comment, where one is
    -- expected, is there.
    abbrev pub Settled : World G → ActiveIssue → Type 0
    Settled w a =
        LabelsSettled a.expected_labels a.live_labels
        × ((a.expects_status_comment ≡ false) ⊎ HasComment a.run_id a.repo a.issue_number w.github)

    comment_step-Settled :
        (a : ActiveIssue) (w : World G)
        → Settled w a
        → comment_step sha256_hex stamp ports hmac_hex secret a w
          ≡ (record { recreated = false; comment_id = none }, w)
    comment_step-Settled a w (labels, inl unexpected) = rw unexpected refl
    comment_step-Settled a w (labels, inr there) = elim (Bool-cases a.expects_status_comment) [
      | inl t ↦ rw t (reconcile_comment_kept _ w there)
      | inr f ↦ rw f refl
    ]

    tick_over-Settled :
        (issues : List ActiveIssue) (s : ProjectionReconcileSummary) (w : World G)
        → All (Settled w) issues
        → tick_over sha256_hex stamp ports hmac_hex secret issues s w ≡ (s, w)
    tick_over-Settled [] s w h = refl
    tick_over-Settled (a ∷ rest) s w h =
        rw (comment_step-Settled a w h.0, in_sync_lem (label_input a) w h.0.0)
          (tick_over-Settled rest s w h.1)

    -- A tick over issues that all need no repair does nothing, neither on GitHub nor to the audit
    -- chain, and its summary counts only the issues.
    pub tick-Settled :
        (issues : List ActiveIssue) (w : World G)
        → All (Settled w) issues
        → tick sha256_hex stamp ports hmac_hex secret issues w
          ≡ (record { scanned = length issues; comments_recreated = 0; labels_repaired = 0 }, w)
    unfolding tick
    tick-Settled issues w h = tick_over-Settled issues _ w h

    -- Once the status comment of a run is reconciled it is on the issue, and to reconcile it again
    -- posts nothing and leaves GitHub and the audit chain as they are.
    pub reconcile_comment_twice :
        (i : StatusCommentInput) (labels : String → ℕ → G → List String) (w : World G)
        → GithubLaws ports labels
        → HasComment i.run_id i.repo i.issue_number
            (reconcile_comment sha256_hex stamp ports hmac_hex secret i w).1.github
          × (reconcile_comment sha256_hex stamp ports hmac_hex secret i
                (reconcile_comment sha256_hex stamp ports hmac_hex secret i w).1
              ≡ (
                record { recreated = false; comment_id = none },
                (reconcile_comment sha256_hex stamp ports hmac_hex secret i w).1,
              ))
    reconcile_comment_twice i labels w laws =
        let there = posted i labels laws w in (there, reconcile_comment_kept i _ there)

  -- Where the labels of an issue were read as they are, to reconcile them leaves on the issue, of the
  -- labels that begin with `cgao:`, exactly the expected ones, and of the others those that were there
  -- or are expected; and to reconcile them again, as they are then read, changes nothing.
  pub reconcile_labels_twice :
      (i : LabelReconcileInput) (labels : String → ℕ → G → List String) (w : World G)
      → GithubLaws ports labels
      → ((m : String) → has i.live_labels m ≡ has (labels i.repo i.issue_number w.github) m)
      → ((m : String)
          → has (labels i.repo i.issue_number (after_labels i w).github) m
            ≡ repaired_labels i.expected_labels i.live_labels m)
        × (reconcile_labels sha256_hex stamp ports
              (reread i (labels i.repo i.issue_number (after_labels i w).github))
              (after_labels i w)
            ≡ (record { added = []; removed = []; reason = in_sync }, after_labels i w))
  reconcile_labels_twice i labels w laws live =
      let left = repaired_lem sha256_hex stamp ports labels laws i w live in
      let seen = labels i.repo i.issue_number (after_labels i w).github in
      let settled : LabelsSettled i.expected_labels seen = λ m. let a = left m in ground arith in
      (left, in_sync_lem (reread i seen) (after_labels i w) settled)
