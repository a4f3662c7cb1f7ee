-- ===== src/Examples/Reconcile.antt =====
-- Drift and repairs of a concrete issue, on a small model of GitHub.
use github_auto_dev.Base.{
  ℕ, String, ◌≡◌, refl, ◌↔◌, true, not, Option, some, List, [], ◌∷◌, has, select, arith, str_eq,
  is_empty, here,
}
use github_auto_dev.Base.Sets.{has-select}
use github_auto_dev.Reconcile.Drift.{
  open_issue, open_pr, completed, LiveIssueSnapshot, LivePrSnapshot, DriftReport, hydrate,
  DbProjection, detect,
}
use github_auto_dev.Reconcile.Drift.Detection.{IssueInStep, PrInStep, detect_iff}
use github_auto_dev.Audit.Chain.{ChainState}
use github_auto_dev.Reconcile.Projection.{
  Comment, Ports, LabelReconcileInput, in_sync, World, reconcile_labels,
}
use github_auto_dev.Reconcile.Projection.Repair.{GithubLaws, repaired_labels}
use github_auto_dev.Reconcile.Projection.Settled.{after_labels, reread, reconcile_labels_twice}

abbrev live_issue : String → ℕ → Option LiveIssueSnapshot
live_issue repo n = some (record {
  repo = repo;
  issue_number = n;
  labels = "cgao:plan-ready" ∷ "P1" ∷ [];
  has_status_comment = true;
  state = open_issue;
})

abbrev live_pr : String → ℕ → Option LivePrSnapshot
live_pr repo n = some (record {
  repo = repo;
  pr_number = n;
  head_sha = "h1";
  base_sha = "b1";
  state = open_pr;
  checks = record { name = "ci"; status = completed; conclusion = some "success" } ∷ [];
  reviews =
      record { author = "bob"; state = "APPROVED" }
      ∷ record { author = "al"; state = "APPROVED" }
      ∷ [];
})

abbrev report : DriftReport
report =
    hydrate live_issue live_pr "t0"
      (record { run_id = "run"; repo = "o/n"; issue_number = some 7; pr_number = some 8 })

abbrev projection : DbProjection
projection = record {
  run_id = "run";
  repo = "o/n";
  issue_number = some 7;
  pr_number = some 8;
  expected_labels = "P1" ∷ "cgao:plan-ready" ∷ "P1" ∷ [];
  expects_status_comment = true;
  expected_issue_state = open_issue;
  expected_head_sha = some "h1";
  expected_reviews =
      record { author = "al"; state = "APPROVED" }
      ∷ record { author = "bob"; state = "APPROVED" }
      ∷ [];
  expected_checks = record { name = "ci"; conclusion = some "success" } ∷ [];
}

-- In another order it is the same.
in_step : detect report projection ≡ []
unfolding detect
in_step = refl

detect_iff_example :
    (is_empty (detect report projection) ≡ true)
    ↔ (IssueInStep projection report.live.issue × PrInStep projection report.live.pr)
detect_iff_example = detect_iff report projection

-- The labels of the one issue that there is, and its comments.
record Issue : Type 0 where
  labels : List String
  comments : List Comment

abbrev ports : Ports Issue
ports = record {
  add_label = λ r n l g. record { labels = l ∷ g.labels; comments = g.comments };
  remove_label =
      λ r n l g. record { labels = select (λ m. not (str_eq l m)) g.labels; comments = g.comments };
  list_comments = λ r n g. g.comments;
  add_comment = λ r n b g.
      (1, record { labels = g.labels; comments = record { id = 1; body = b } ∷ g.comments });
}

abbrev labels_of : String → ℕ → Issue → List String
labels_of r n g = g.labels

laws : GithubLaws ports labels_of
laws = record {
  added = λ r n l g m. refl;
  removed = λ r n l g m. let e = has-select (λ x. not (str_eq l x)) g.labels m in ground arith;
  commented = λ r n b g. here refl;
}

abbrev sha256 : String → String
sha256 text = "00"

abbrev stamp : ChainState → String × String
stamp chain = ("id", "t0")

abbrev input : LabelReconcileInput
input = record {
  run_id = "run";
  repo = "o/n";
  issue_number = 7;
  expected_labels = "cgao:plan-ready" ∷ [];
  live_labels = "cgao:merged" ∷ "P1" ∷ [];
}

abbrev world : World Issue
world = record {
  github = record { labels = "cgao:merged" ∷ "P1" ∷ []; comments = [] };
  chain = record { records = []; tails = [] };
}

reconcile_labels_twice_example :
    ((m : String)
      → has (after_labels sha256 stamp ports input world).github.labels m
        ≡ repaired_labels input.expected_labels input.live_labels m)
    × (reconcile_labels sha256 stamp ports
          (reread input (after_labels sha256 stamp ports input world).github.labels)
          (after_labels sha256 stamp ports input world)
        ≡ (
          record { added = []; removed = []; reason = in_sync },
          after_labels sha256 stamp ports input world,
        ))
reconcile_labels_twice_example =
    reconcile_labels_twice sha256 stamp ports input labels_of world laws (λ m. refl)
