-- ===== src/Issues/StatusComment.antt =====
-- The status comment of issues/status-comment.ts: its body, its repository in memory, a `Map` whose
-- keys are the ids of its records, and the service. The nonce of a marker is an argument.
pub mod OneComment
use github_auto_dev.Base.{
  ℕ, ◌+◌, ◌==◌, String, Option, none, some, Bool, true, false, not, ◌&&◌, List, [], ◌∷◌, ◌++◌, map,
  if◌then◌else◌, truthy?, or_else, str_eq, find, is_empty,
}
use github_auto_dev.Base.Text.{◌<>◌, join}
use github_auto_dev.Issues.Labels.{IssueStatus, status_name}
use github_auto_dev.Issues.Marker.{
  ParsedMarker, generate_status_marker, parse_status_marker, verify_status_marker,
}

pub record StatusCommentRecord : Type 0 where
  pub comment_id : ℕ
  pub repo : String
  pub issue_number : ℕ
  pub run_id : String
  pub marker : String
  pub author_login : String
  pub created_at : String
  pub updated_at : String
  pub status : IssueStatus

-- The rows in the order in which they were created, and the next id.
pub record Comments : Type 0 where
  pub rows : List StatusCommentRecord
  pub next_id : ℕ

-- `rows.get(id)`, and `rows.set(id, row)` of a present id.
abbrev pub get_row : ℕ → List StatusCommentRecord → Option StatusCommentRecord
get_row id [] = none
get_row id (r ∷ rs) = let rest = get_row id rs in if r.comment_id == id then some r else rest

abbrev pub set_row : ℕ → StatusCommentRecord → List StatusCommentRecord → List StatusCommentRecord
set_row id row [] = []
set_row id row (r ∷ rs) =
    let rest = set_row id row rs in if r.comment_id == id then row ∷ rs else r ∷ rest

abbrev pub is_active : String → ℕ → String → StatusCommentRecord → Bool
is_active repo issue bot r =
    str_eq r.repo repo && ((r.issue_number == issue) && str_eq r.author_login bot)

unfoldable pub find_active : String → ℕ → String → Comments → Option StatusCommentRecord
unfolding find
find_active repo issue bot s = find (is_active repo issue bot) s.rows

-- The arguments of `upsert`, with the time and the nonce that it takes.
pub record Upsert : Type 0 where
  pub repo : String
  pub issue_number : ℕ
  pub run_id : String
  pub status : IssueStatus
  pub category : Option String
  pub missing_fields : List String
  pub note : Option String
  pub now : String
  pub nonce : String

pub record StatusCommentConfig : Type 0 where
  pub bot_login : String
  pub marker_secret : String

unfoldable pub create_comment :
    Upsert → (bot : String) → (marker : String) → Comments → StatusCommentRecord × Comments
create_comment u bot marker s =
    let r : StatusCommentRecord = record {
      comment_id = s.next_id;
      repo = u.repo;
      issue_number = u.issue_number;
      run_id = u.run_id;
      marker = marker;
      author_login = bot;
      created_at = u.now;
      updated_at = u.now;
      status = u.status;
    } in
    (r, record { rows = s.rows ++ r ∷ []; next_id = s.next_id + 1 })

abbrev pub edited : Upsert → String → StatusCommentRecord → StatusCommentRecord
edited u marker r = record {
  comment_id = r.comment_id;
  repo = r.repo;
  issue_number = r.issue_number;
  run_id = r.run_id;
  marker = marker;
  author_login = r.author_login;
  created_at = r.created_at;
  updated_at = u.now;
  status = u.status;
}

abbrev pub update_found :
    Upsert
    → ℕ
    → String
    → Comments
    → Option StatusCommentRecord
    → Option (StatusCommentRecord × Comments)
update_found u id marker s none = none
update_found u id marker s (some r) = some (
  edited u marker r,
  record { rows = set_row id (edited u marker r) s.rows; next_id = s.next_id },
)

-- `update`: nothing where it throws.
unfoldable pub update_comment :
    Upsert → (id : ℕ) → (marker : String) → Comments → Option (StatusCommentRecord × Comments)
update_comment u id marker s = update_found u id marker s (get_row id s.rows)

abbrev quoted : String → String
quoted f = "`" <> f <> "`"

abbrev line_if : Bool → String → List String → List String
line_if b line more = if b then line ∷ more else more

-- `renderStatusCommentBody`.
unfoldable pub render_status_comment_body : Upsert → String → String
unfolding join
render_status_comment_body u marker = join "\n" (
    "## cgao status"
    ∷ ""
    ∷ ("**Status:** `" <> status_name u.status <> "`")
    ∷ line_if (truthy? u.category) ("**Kind:** `" <> or_else u.category "" <> "`") (
        line_if (not (is_empty u.missing_fields))
          ("**Needs:** " <> join ", " (map quoted u.missing_fields))
          (line_if (truthy? u.note) ""
            (line_if (truthy? u.note) (or_else u.note "") ("" ∷ marker ∷ [])))))

module _ (hmac_hex : String → String → String) where
  abbrev pub fresh_marker : StatusCommentConfig → Upsert → String
  fresh_marker c u =
      generate_status_marker hmac_hex c.marker_secret u.repo u.issue_number u.run_id c.bot_login
        u.status u.nonce

  abbrev pub created :
      StatusCommentConfig → Upsert → Comments → Option (StatusCommentRecord × Comments)
  created c u s = some (create_comment u c.bot_login (fresh_marker c u) s)

  abbrev pub upsert_at :
      StatusCommentConfig
      → Upsert
      → Option StatusCommentRecord
      → Comments
      → Option (StatusCommentRecord × Comments)
  upsert_at c u none s = created c u s
  upsert_at c u (some e) s =
      if str_eq e.author_login c.bot_login && str_eq e.repo u.repo
      then update_comment u e.comment_id (fresh_marker c u) s
      else created c u s

  -- `StatusCommentService.upsert`: nothing where it throws. The body that it sends with the marker is
  -- `render_status_comment_body`, which the repository in memory does not keep.
  unfoldable pub upsert :
      StatusCommentConfig → Upsert → Comments → Option (StatusCommentRecord × Comments)
  unfolding generate_status_marker create_comment update_comment find_active
  upsert c u s = upsert_at c u (find_active u.repo u.issue_number c.bot_login s) s

  abbrev authentic_at : StatusCommentConfig → String → ℕ → Option ParsedMarker → Bool
  authentic_at c repo issue none = false
  authentic_at c repo issue (some p) =
      verify_status_marker hmac_hex c.marker_secret repo issue p c.bot_login

  -- `isAuthenticated`.
  unfoldable pub is_authenticated : StatusCommentConfig → String → String → ℕ → Bool
  unfolding parse_status_marker verify_status_marker
  is_authenticated c body repo issue = authentic_at c repo issue (parse_status_marker body)
