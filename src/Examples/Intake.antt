-- ===== src/Examples/Intake.antt =====
-- A concrete conversation.
use github_auto_dev.Base.{◌⊎◌, ◌+◌, ◌≤◌, ◌≡◌, refl, none, [], ◌∷◌, true, false, length, arith}
use github_auto_dev.Intake.Clarifier.{
  IntakeSession, pending, dropped, ClarifierConfig, ClarifierInput, is_terminal, advance,
}
use github_auto_dev.Intake.Dedup.{
  github_issue, DedupInput, fresh, claim, compute_dedup_key, resolve,
}
use github_auto_dev.Intake.Dedup.Window.{Request, IsDuplicateOf, resolve_all, resolve_once}
use github_auto_dev.Base.{String, List}
use github_auto_dev.Base.Dict
use github_auto_dev.Base.Text.{trim}
use github_auto_dev.Intake.Clarifier.Conversation.{talk, Talked, talk-bounded}

abbrev config : ClarifierConfig
config = record { round_limit = 1; confidence_threshold = 700; inactivity_timeout_ms = 1000 }

abbrev session : IntakeSession
session = record {
  id = "s";
  state = pending;
  round = 0;
  last_confidence = 0;
  last_user_at = "t";
  opened_at = "t";
  drop_reason = none;
  transcript_summary = "";
}

abbrev unsure : ClarifierInput
unsure = record {
  message = "it broke";
  confidence = 100;
  explicit_triggered = false;
  gave_up = false;
  now = "t1";
}

second_drops : (talk config (unsure ∷ unsure ∷ []) session).0.state ≡ dropped
unfolding advance
second_drops = refl

talk-bounded_example :
    Talked config (unsure ∷ unsure ∷ []) session (talk config (unsure ∷ unsure ∷ []) session)
    × ((is_terminal (talk config (unsure ∷ unsure ∷ []) session).0.state ≡ true)
        ⊎ (0 + length (unsure ∷ unsure ∷ []) ≤ 1))
talk-bounded_example = talk-bounded config (unsure ∷ unsure ∷ []) session (omega arith)

abbrev as_is : String → String
as_is s = s

abbrev report : DedupInput
report = record { source_type = github_issue; external_id = "7"; content = "it  broke " }

spaces_collapse : compute_dedup_key as_is as_is report ≡ "github_issue|7|it broke"
unfolding compute_dedup_key trim
spaces_collapse = refl

first_opens :
    (resolve as_is as_is 1 report "s1" 100 []).0 ≡ fresh "github_issue|7|it broke" "it broke"
unfolding resolve claim compute_dedup_key trim Dict.get
first_opens = refl

abbrev meanwhile : List Request
meanwhile = record { input = report; session = "s2"; now = 200 } ∷ []

resolve_once_example :
    IsDuplicateOf as_is as_is "s1" 100
      (resolve_all as_is as_is 1 meanwhile (resolve as_is as_is 1 report "s1" 100 []).1)
      (resolve as_is as_is 1 report "s3" 300
        (resolve_all as_is as_is 1 meanwhile (resolve as_is as_is 1 report "s1" 100 []).1))
resolve_once_example =
    resolve_once as_is as_is 1 report report "s1" "s3" 100 300 [] "github_issue|7|it broke"
      "it broke" meanwhile first_opens refl (omega arith, tt) (omega arith)
