-- ===== src/Issues/Categories.antt =====
-- issues/triage.ts: the category of an issue and what its body lacks. `toLowerCase` of the runtime
-- is the parameter `lower`. A confidence is counted in thousandths.
use github_auto_dev.Base.{
  ℕ, ltb, leb, ◌==◌, String, Option, none, some, Bool, true, false, not, ◌&&◌, ◌||◌, List, [], ◌∷◌,
  map, or_else, if◌then◌else◌, str_eq, any,
}
use github_auto_dev.Base.Text.{◌<>◌, trim}
use github_auto_dev.Issues.Words.{units, has_word, includes, field_here, field_below, begins_word}

pub data IssueCategory : Type 0 where
  bug feature docs question security chore unknown : IssueCategory

abbrev pub category_name : IssueCategory → String
category_name bug = "bug"
category_name feature = "feature"
category_name docs = "docs"
category_name question = "question"
category_name security = "security"
category_name chore = "chore"
category_name unknown = "unknown"

abbrev pub same_category : IssueCategory → IssueCategory → Bool
same_category a b = str_eq (category_name a) (category_name b)

pub record IssueSnapshot : Type 0 where
  pub number : ℕ
  pub title : String
  pub body : String
  pub closed : Bool
  pub existing_labels : List String
  pub author_login : String

pub data Severity : Type 0 where
  low medium high unknown_severity : Severity

pub record TriageHints : Type 0 where
  pub category_hint : Option IssueCategory
  pub severity_hint : Option Severity
  pub confidence : Option ℕ

pub record InformationRule : Type 0 where
  pub category : IssueCategory
  pub missing_fields : IssueSnapshot → TriageHints → List String

-- `KEYWORD_MAP`.
abbrev keyword_map : List (IssueCategory × List String)
keyword_map =
    (
      security,
      "security" ∷ "cve" ∷ "vulnerability" ∷ "exploit" ∷ "xss" ∷ "sqli" ∷ "rce"
          ∷ "privilege escalation" ∷ [],
    )
    ∷ (
      bug,
      "bug" ∷ "crash" ∷ "broken" ∷ "error" ∷ "exception" ∷ "failed" ∷ "regression" ∷ "panic" ∷ [],
    )
    ∷ (
      feature,
      "feature" ∷ "request" ∷ "add support" ∷ "would be nice" ∷ "enhancement" ∷ "proposal" ∷ [],
    )
    ∷ (docs, "docs" ∷ "documentation" ∷ "readme" ∷ "typo" ∷ "spelling" ∷ "example" ∷ [])
    ∷ (question, "how do i" ∷ "how to" ∷ "question" ∷ "?" ∷ "help me understand" ∷ [])
    ∷ (chore, "chore" ∷ "refactor" ∷ "cleanup" ∷ "upgrade" ∷ "dependency" ∷ "bump version" ∷ [])
    ∷ []

-- A keyword of one character, or one that does not begin a word, is looked for anywhere.
abbrev mentions : String → String → Bool
mentions text kw =
    if str_eq kw ""
    then false
    else if (units kw == 1) || not (begins_word kw)
    then includes kw text
    else has_word kw text

abbrev keyword_in : String → List (IssueCategory × List String) → IssueCategory
keyword_in text [] = unknown
keyword_in text ((category, keywords) ∷ more) =
    let later = keyword_in text more in if any (mentions text) keywords then category else later

abbrev is_unknown : IssueCategory → Bool
is_unknown c = same_category c unknown

module _ (lower : String → String) where
  unfoldable pub keyword_category : String → String → IssueCategory
  unfolding units includes has_word any
  keyword_category title body = keyword_in (lower (title <> "\n" <> body)) keyword_map

  abbrev hinted : Option IssueCategory → ℕ → IssueCategory → IssueCategory
  hinted none confidence otherwise = otherwise
  hinted (some c) confidence otherwise =
      if not (is_unknown c) && leb 600 confidence then c else otherwise

  unfoldable pub classify : IssueSnapshot → TriageHints → IssueCategory
  unfolding keyword_category
  classify i hints =
      if i.closed
      then unknown
      else hinted hints.category_hint (or_else hints.confidence 0) (keyword_category i.title i.body)

  abbrev is_field : String → String → Bool
  is_field body n = if str_eq n "" then false else field_here n body || field_below n body

  unfoldable pub has_body_field : String → String → List String → Bool
  unfolding any field_here field_below
  has_body_field body label synonyms = any (is_field (lower body)) (map lower (label ∷ synonyms))

  unfoldable pub has_mention : String → String → Bool
  unfolding has_word
  has_mention body word = has_word (lower word) (lower body)

  abbrev lacking : Bool → String → List String → List String
  lacking has_it name more = if has_it then more else name ∷ more

  abbrev bug_fields : IssueSnapshot → TriageHints → List String
  bug_fields s hints =
      lacking
        (has_body_field s.body "steps to reproduce"
          ("repro" ∷ "reproduction" ∷ "how to reproduce" ∷ []))
        "steps_to_reproduce"
        (lacking (has_body_field s.body "expected" ("expected behavior" ∷ "expected result" ∷ []))
          "expected_behavior"
          (lacking (has_body_field s.body "actual" ("actual behavior" ∷ "observed" ∷ []))
            "actual_behavior" []))

  abbrev feature_fields : IssueSnapshot → TriageHints → List String
  feature_fields s hints =
      lacking (has_body_field s.body "user story" ("as a" ∷ "as an" ∷ [])) "user_story" (
        lacking
          (has_body_field s.body "acceptance" ("acceptance criteria" ∷ "definition of done" ∷ []))
          "acceptance_criteria" [])

  abbrev knows_severity : Option Severity → Bool
  knows_severity none = false
  knows_severity (some unknown_severity) = false
  knows_severity (some low) = true
  knows_severity (some medium) = true
  knows_severity (some high) = true

  abbrev security_fields : IssueSnapshot → TriageHints → List String
  security_fields s hints =
      lacking (has_body_field s.body "affected" ("affected component" ∷ "affected versions" ∷ []))
        "affected_component"
        (lacking (knows_severity hints.severity_hint) "severity" ("human_ack_required" ∷ []))

  abbrev docs_fields : IssueSnapshot → TriageHints → List String
  docs_fields s hints =
      lacking
        (has_mention s.body "readme" || has_body_field s.body "location" ("path" ∷ "file" ∷ []))
        "location" []

  abbrev chore_fields : IssueSnapshot → TriageHints → List String
  chore_fields s hints =
      lacking (has_body_field s.body "scope" ("what changes" ∷ "scope of work" ∷ [])) "scope" []

  abbrev question_fields : IssueSnapshot → TriageHints → List String
  question_fields s hints = []

  abbrev unknown_fields : IssueSnapshot → TriageHints → List String
  unknown_fields s hints = if ltb (units (trim s.body)) 20 then "description" ∷ [] else []

  abbrev rule : IssueCategory → (IssueSnapshot → TriageHints → List String) → InformationRule
  rule c fields = record { category = c; missing_fields = fields }

  -- `DEFAULT_RULES`.
  unfoldable pub default_rules : List InformationRule
  unfolding has_body_field has_mention units
  default_rules =
      rule bug bug_fields
      ∷ rule feature feature_fields
      ∷ rule security security_fields
      ∷ rule docs docs_fields
      ∷ rule chore chore_fields
      ∷ rule question question_fields
      ∷ rule unknown unknown_fields
      ∷ []

-- `InformationCompletenessRules.evaluate`: the first rule for the category decides.
unfoldable pub evaluate :
    List InformationRule → IssueCategory → IssueSnapshot → TriageHints → List String
evaluate [] category s hints = []
evaluate (r ∷ rules) category s hints =
    let later = evaluate rules category s hints in
    if same_category r.category category then r.missing_fields s hints else later
