-- ===== src/Commits/Message.antt =====
-- commits/commit-message-renderer.ts: the message of a commit, which names what it belongs to.
use Prim.Native.Char.{code}
use github_auto_dev.Base.{
  ℕ, ltb, leb, ◌==◌, ◌&&◌, ◌||◌, String, Option, none, some, Bool, true, not, List, [], ◌∷◌, ◌++◌,
  if◌then◌else◌,
}
use github_auto_dev.Base.Text.{◌<>◌, join, show, trim}
use github_auto_dev.Issues.Words.{units, includes}

pub record CommitMessageInput : Type 0 where
  pub summary : String
  pub issue_number : ℕ
  pub run_id : String
  pub spec_id : String
  pub plan_id : String
  pub plan_sha : String
  pub body : Option (List String)

pub data CommitMessageError : Type 0 where
  sha_malformed summary_empty summary_with_newline : CommitMessageError
  summary_too_long : (units : ℕ) → CommitMessageError

pub data Rendered : Type 0 where
  rendered : (text : String) → Rendered
  refused : (error : CommitMessageError) → Rendered

abbrev max_summary_len : ℕ
max_summary_len = 72

abbrev is_hex : ℕ → Bool
is_hex n = (leb 48 n && leb n 57) || (leb 97 n && leb n 102)

unfoldable pub all_hex : String → Bool
all_hex String.[] = true
all_hex (String.◌∷◌ c s) = is_hex (code c) && all_hex s

-- `/^[0-9a-f]{64}$/u`.
abbrev is_sha : String → Bool
is_sha s = all_hex s && (units s == 64)

-- `renderCommitTrailers`.
unfoldable pub render_commit_trailers : CommitMessageInput → Rendered
unfolding all_hex units show join
render_commit_trailers i =
    let refs = "Refs: issue #" <> show i.issue_number <> ", run-id " <> i.run_id in
    let spec = "Spec-Id: " <> i.spec_id in
    let plan = "Plan-Id: " <> i.plan_id <> "@" <> i.plan_sha in
    if not (is_sha i.plan_sha)
    then refused sha_malformed
    else rendered (join "\n" (refs ∷ spec ∷ plan ∷ []))

abbrev body_lines : Option (List String) → List String
body_lines none = []
body_lines (some []) = []
body_lines (some (l ∷ ls)) = l ∷ ls ++ "" ∷ []

abbrev under_summary : String → List String → Rendered → Rendered
under_summary summary body (refused e) = refused e
under_summary summary body (rendered trailers) =
    rendered (join "\n" ((summary ∷ "" ∷ []) ++ body ++ trailers ∷ []))

-- `renderCommitMessage`.
unfoldable pub render_commit_message : CommitMessageInput → Rendered
unfolding trim units includes render_commit_trailers join
render_commit_message i =
    let summary = trim i.summary in
    let n = units summary in
    if n == 0
    then refused summary_empty
    else if ltb max_summary_len n
    then refused (summary_too_long n)
    else if includes "\n" summary
    then refused summary_with_newline
    else under_summary summary (body_lines i.body) (render_commit_trailers i)
