-- ===== src/Commits/Paths.antt =====
-- sandbox/path-write-policy.ts and policy/protected-file-detector.ts of apps/runner-broker/src: paths,
-- the patterns that they match, and which may be written.
use Prim.Native.Char.{code}
use github_auto_dev.Base.{
  ◌==◌, String, Option, none, some, Bool, true, false, not, ◌||◌, List, [], ◌∷◌, ◌++◌,
  if◌then◌else◌, str_eq, any, select, has,
}
use github_auto_dev.Base.Text.{◌<>◌, join}
use github_auto_dev.Issues.Words.{starts_with, ends_with}

-- `p.split('/')`.
abbrev put_first : String → List String → List String
put_first s [] = s ∷ []
put_first s (x ∷ xs) = (s <> x) ∷ xs

unfoldable pub split_path : String → List String
split_path String.[] = "" ∷ []
split_path (String.◌∷◌ c s) =
    let rest = split_path s in if code c == 47 then "" ∷ rest else put_first (String.◌∷◌ c "") rest

abbrev is_up : List String → Bool
is_up [] = false
is_up (x ∷ xs) = not (str_eq x "..")

abbrev tail_of : List String → List String
tail_of [] = []
tail_of (x ∷ xs) = xs

-- What a part does to the parts before it, the last of which comes first.
abbrev normal_step : Bool → List String → String → List String
normal_step is_abs out part =
    if str_eq part "" || str_eq part "."
    then out
    else if str_eq part ".."
    then if is_up out then tail_of out else if is_abs then out else ".." ∷ out
    else part ∷ out

abbrev normal_parts : Bool → List String → List String → List String
normal_parts is_abs out [] = out
normal_parts is_abs out (p ∷ ps) = normal_parts is_abs (normal_step is_abs out p) ps

abbrev reversed : List String → List String → List String
reversed [] acc = acc
reversed (x ∷ xs) acc = reversed xs (x ∷ acc)

-- `normalizePath`.
unfoldable pub normalize_path : String → String
unfolding split_path starts_with join
normalize_path p =
    let is_abs = starts_with "/" p in
    let joined = join "/" (reversed (normal_parts is_abs [] (split_path p)) []) in
    if is_abs then "/" <> joined else joined

-- `hasTraversal`.
unfoldable pub has_traversal : String → Bool
unfolding split_path
has_traversal p = has (split_path p) ".."

-- `p.slice(0, -n)` of a text that ends with a suffix of `n` characters.
unfoldable pub without_end : String → String → String
without_end suffix String.[] = ""
without_end suffix (String.◌∷◌ c s) =
    let rest = without_end suffix s in
    if str_eq (String.◌∷◌ c s) suffix then "" else String.◌∷◌ c rest

-- `rel === prefix || rel.startsWith(prefix + '/')`.
abbrev is_under : String → String → Bool
is_under rel prefix = str_eq rel prefix || starts_with (prefix <> "/") rel

-- `matchesGlob`, and the same test in patch-validator.ts.
unfoldable pub matches_glob : String → String → Bool
unfolding ends_with without_end starts_with
matches_glob rel pattern =
    if str_eq pattern "**"
    then true
    else if ends_with "/**" pattern
    then is_under rel (without_end "/**" pattern)
    else if ends_with "**" pattern
    then starts_with (without_end "**" pattern) rel
    else is_under rel pattern

unfoldable pub matches_any : String → List String → Bool
unfolding matches_glob any
matches_any rel patterns = any (matches_glob rel) patterns

-- `PROTECTED_PATTERNS`.
abbrev pub protected_patterns : List String
protected_patterns =
    ".cgao/**" ∷ ".claude/**" ∷ ".github/**" ∷ "package.json" ∷ "pnpm-lock.yaml"
    ∷ "package-lock.json" ∷ "yarn.lock" ∷ "scripts/**" ∷ []

-- `matchGlob` of the detector.
unfoldable pub match_protected : String → String → Bool
unfolding ends_with without_end starts_with
match_protected rel pattern =
    if str_eq pattern rel
    then true
    else if ends_with "/**" pattern
    then is_under rel (without_end "/**" pattern)
    else false

-- `isProtected` and `matchedPatterns`, for the patterns of a detector.
unfoldable pub is_protected : List String → String → Bool
unfolding match_protected any
is_protected patterns rel = any (match_protected rel) patterns

unfoldable pub matched_patterns : List String → String → List String
unfolding match_protected select
matched_patterns patterns rel = select (match_protected rel) patterns

-- Why a path is denied.
pub data Denial : Type 0 where
  outside_root : (path : String) → Denial
  contains_traversal : (path : String) → Denial
  symlink_escapes : (target : String) → Denial
  symlink_forbidden : (pattern : String) → (rel : String) → Denial
  forbidden : (pattern : String) → (rel : String) → Denial
  not_allowed : (rel : String) → Denial

pub record PathWritePolicy : Type 0 where
  pub workspace_root : String
  pub allowed_paths : List String
  pub forbidden_paths : List String

abbrev when : Bool → Denial → List Denial
when b d = if b then d ∷ [] else []

-- `s.slice(prefix.length)` of a text that starts with the prefix.
unfoldable pub without_start : String → String → String
without_start String.[] s = s
without_start (String.◌∷◌ c p) String.[] = ""
without_start (String.◌∷◌ c p) (String.◌∷◌ d s) = without_start p s

-- The part of a path behind the root, or the path where it is not under it.
abbrev pub relative_to : String → String → String
relative_to root path =
    if starts_with (root <> "/") path then without_start (root <> "/") path else path

abbrev forbidden_by : (String → Denial) → String → List String → List Denial
forbidden_by deny rel [] = []
forbidden_by deny rel (f ∷ fs) =
    let rest = forbidden_by deny rel fs in if matches_glob rel f then deny f ∷ rest else rest

abbrev symlink_reasons : PathWritePolicy → Option String → List Denial
symlink_reasons p none = []
symlink_reasons p (some target) =
    let norm = normalize_path target in
    let rel = without_start (p.workspace_root <> "/") norm in
    if not (starts_with (p.workspace_root <> "/") norm)
    then symlink_escapes target ∷ []
    else forbidden_by (λ f. symlink_forbidden f rel) rel p.forbidden_paths

-- `PathWritePolicy.isAllowed`: the reasons of a denial, none where the path may be written.
unfoldable pub is_allowed : PathWritePolicy → String → Option String → List Denial
unfolding normalize_path has_traversal matches_any matches_glob without_start starts_with
is_allowed p path symlink =
    let norm = normalize_path path in
    let rel = relative_to p.workspace_root norm in
    when (not (starts_with (p.workspace_root <> "/") norm)) (outside_root path)
    ++ when (has_traversal path) (contains_traversal path)
    ++ symlink_reasons p symlink
    ++ forbidden_by (λ f. forbidden f rel) rel p.forbidden_paths
    ++ when (not (matches_any rel p.allowed_paths)) (not_allowed rel)
