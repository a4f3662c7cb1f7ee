-- ===== src/Examples/Review.antt =====
-- The life of concrete findings.
use github_auto_dev.Base.{◌≡◌, refl, none, some, [], ◌∷◌, true, here, there}
use github_auto_dev.Base.Dict
use github_auto_dev.Db.Findings.{FindingRow, opened, fixed, dismissed}
use github_auto_dev.Review.Lifecycle.{
  State, MarkFixedInput, DismissInput, OmissionInput, code_reviewer, mark_fixed, dismiss,
  mark_fixed_by_omission,
}
use github_auto_dev.Review.Lifecycle.Transitions.{
  Effect, MayFix, MayDismiss, mark_fixed-Effect, dismiss-Effect,
}
use github_auto_dev.Review.Lifecycle.Omission.{Keyed, omission-keeps_blocking}

abbrev blocker : FindingRow
blocker = record {
  id = "f1";
  finding_hash = "x";
  run_id = some "run";
  pr_number = some 7;
  head_sha = "h1";
  severity = "high";
  category = "bug";
  file_path = none;
  line_number = none;
  title = "t";
  description = "d";
  recommendation = none;
  blocking = true;
  status = opened;
  closed_by = none;
  close_reason = none;
  created_at = 1;
  closed_at = none;
}

abbrev st : State
st = record { rows = ("f1", blocker) ∷ []; audit = [] }

abbrev confirm : MarkFixedInput
confirm = record {
  finding_id = "f1";
  reviewer = code_reviewer;
  confirmed_at_head_sha = "h2";
  actor = "bot";
}

mark_fixed-Effect_example : Effect "f1" fixed (MayFix confirm) st (mark_fixed confirm 5 st)
mark_fixed-Effect_example = mark_fixed-Effect confirm 5 st

abbrev wont_fix : DismissInput
wont_fix = record { finding_id = "f1"; reason = "by design"; by_whom = "alice" }

dismiss-Effect_example : Effect "f1" dismissed (MayDismiss wont_fix) st (dismiss wont_fix 5 st)
dismiss-Effect_example = dismiss-Effect wont_fix 5 st

abbrev silence : OmissionInput
silence = record { pr_number = 7; new_head_sha = "h2"; new_finding_hashes = []; actor = "bot" }

st-Keyed : Keyed st.rows
unfolding Dict.values Dict.get
st-Keyed row (here e) = rw e refl
st-Keyed row (there i) = elim i [ ]

omission-keeps_blocking_example :
    Dict.get "f1" (mark_fixed_by_omission silence 5 st).1.rows ≡ some blocker
omission-keeps_blocking_example =
    omission-keeps_blocking silence 5 st "f1" blocker st-Keyed (unfold Dict.get in refl) refl
