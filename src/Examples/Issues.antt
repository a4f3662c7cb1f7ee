-- ===== src/Examples/Issues.antt =====
-- A triage, its labels, a marker and the comments of concrete issues.
use Prim.Native.Char.{Char, code}
use github_auto_dev.Base.{
  ℕ, ◌==◌, ◌≤◌, String, ◌≡◌, refl, true, false, none, some, List, [], ◌∷◌, map, if◌then◌else◌, has,
}
use github_auto_dev.Issues.Categories.{
  IssueCategory, bug, feature, docs, question, security, chore, unknown, IssueSnapshot, TriageHints,
  default_rules,
}
use github_auto_dev.Issues.Labels.{
  IssueStatus, new, triaging, needs_info, ready, in_progress, blocked, reviewing, closed, ignored,
  kind_label, status_label, status_name,
}
use github_auto_dev.Issues.Triage.{triage}
use github_auto_dev.Issues.Triage.Outcome.{KeepsLabels, relabelled, projected, triage_labels}
use github_auto_dev.Issues.Marker.{
  ParsedMarker, generate_status_marker, parse_status_marker, verify_status_marker,
}
use github_auto_dev.Issues.Marker.RoundTrip.{generated}
use github_auto_dev.Issues.StatusComment.{Comments, Upsert, StatusCommentConfig}
use github_auto_dev.Issues.StatusComment.OneComment.{comments_on, no_comments, upserts, upserts_one}

abbrev small_letters : List (ℕ × Char)
small_letters =
    (65, "a")
    ∷ (66, "b")
    ∷ (67, "c")
    ∷ (68, "d")
    ∷ (69, "e")
    ∷ (70, "f")
    ∷ (71, "g")
    ∷ (72, "h")
    ∷ (73, "i")
    ∷ (74, "j")
    ∷ (75, "k")
    ∷ (76, "l")
    ∷ (77, "m")
    ∷ (78, "n")
    ∷ (79, "o")
    ∷ (80, "p")
    ∷ (81, "q")
    ∷ (82, "r")
    ∷ (83, "s")
    ∷ (84, "t")
    ∷ (85, "u")
    ∷ (86, "v")
    ∷ (87, "w")
    ∷ (88, "x")
    ∷ (89, "y")
    ∷ (90, "z")
    ∷ []

abbrev small : Char → List (ℕ × Char) → Char
small c [] = c
small c ((n, d) ∷ more) = let later = small c more in if code c == n then d else later

abbrev lower : String → String
lower String.[] = ""
lower (String.◌∷◌ c s) = String.◌∷◌ (small c small_letters) (lower s)

keeps : KeepsLabels lower
keeps = record { kind = kinds; status = statuses }
  where
    kinds : (c : IssueCategory) → lower (kind_label c) ≡ kind_label c
    kinds bug = refl
    kinds feature = refl
    kinds docs = refl
    kinds question = refl
    kinds security = refl
    kinds chore = refl
    kinds unknown = refl

    statuses : (t : IssueStatus) → lower (status_label t) ≡ status_label t
    statuses new = refl
    statuses triaging = refl
    statuses needs_info = refl
    statuses ready = refl
    statuses in_progress = refl
    statuses blocked = refl
    statuses reviewing = refl
    statuses closed = refl
    statuses ignored = refl

abbrev crash : IssueSnapshot
crash = record {
  number = 7;
  title = "Crash on start";
  body = "## Steps to reproduce: run it";
  closed = false;
  existing_labels = "P1" ∷ "cgao:kind/docs" ∷ [];
  author_login = "alice";
}

abbrev no_hints : TriageHints
no_hints = record { category_hint = none; severity_hint = none; confidence = none }

-- A bug without the expected and the actual behaviour.
crash_needs :
    (triage lower (default_rules lower) crash no_hints).missing_fields
    ≡ "expected_behavior" ∷ "actual_behavior" ∷ []
unfolding triage default_rules
crash_needs = refl

triage_labels_example :
    has
      (relabelled
        (map lower crash.existing_labels)
        (triage lower (default_rules lower) crash no_hints).labels_to_add
        (triage lower (default_rules lower) crash no_hints).labels_to_remove)
      "cgao:kind/docs"
    ≡ projected
        (triage lower (default_rules lower) crash no_hints).category
        (triage lower (default_rules lower) crash no_hints).status
        (map lower crash.existing_labels)
        "cgao:kind/docs"
triage_labels_example =
    triage_labels lower (default_rules lower) crash no_hints "cgao:kind/docs" keeps

abbrev hmac : String → String → String
hmac key text = "ab12"

generated_example :
    (p : ParsedMarker) × (parse_status_marker
        (generate_status_marker hmac "key" "o/n" 7 "run_1" "cgao" ready "n-1")
      ≡ some p)
    × (((p.run_id ≡ "run_1") × ((p.status ≡ status_name ready) × (p.nonce ≡ "n-1")))
        × (verify_status_marker hmac "key" "o/n" 7 p "cgao" ≡ true))
generated_example =
    generated hmac "key" "o/n" 7 "run_1" "cgao" ready "n-1" (λ _ _. (refl, refl)) (refl, refl)
      (refl, refl)

abbrev config : StatusCommentConfig
config = record { bot_login = "cgao"; marker_secret = "key" }

abbrev first_upsert : Upsert
first_upsert = record {
  repo = "o/n";
  issue_number = 7;
  run_id = "run_1";
  status = needs_info;
  category = some "bug";
  missing_fields = "scope" ∷ [];
  note = none;
  now = "t0";
  nonce = "n-1";
}

abbrev second_upsert : Upsert
second_upsert = record {
  repo = "o/n";
  issue_number = 7;
  run_id = "run_2";
  status = ready;
  category = none;
  missing_fields = [];
  note = none;
  now = "t1";
  nonce = "n-2";
}

upserts_one_example :
    (after : Comments) × (upserts hmac config (first_upsert ∷ second_upsert ∷ []) no_comments
      ≡ some after)
    × ((repo : String) (issue : ℕ) → comments_on repo issue config.bot_login after.rows ≤ 1)
upserts_one_example = upserts_one hmac config (first_upsert ∷ second_upsert ∷ [])
