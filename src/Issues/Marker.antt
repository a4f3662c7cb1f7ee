-- ===== src/Issues/Marker.antt =====
-- The authenticated marker of issues/status-comment.ts. HMAC is a parameter, and so is the nonce
-- that the source draws.
pub mod RoundTrip
use Prim.Native.Char.{code}
use Prim.Native.String
use github_auto_dev.Base.{
  ℕ, ◌+◌, ◌-◌, ◌*◌, leb, ◌==◌, String, Option, none, some, Bool, true, false, not, ◌&&◌, ◌||◌, List,
  [], ◌∷◌, if◌then◌else◌, truthy,
}
use github_auto_dev.Base.Text.{◌<>◌, show, join, is_space}
use github_auto_dev.Issues.Words.{units}
use github_auto_dev.Issues.Labels.{IssueStatus, status_name}

abbrev pub marker_begin : String
marker_begin = "<!-- cgao:status-comment-marker"

abbrev pub marker_end : String
marker_end = "-->"

-- What the marker authenticates.
abbrev pub signed_data : String → ℕ → String → String → String → String → String
signed_data repo issue run author status nonce =
    join "\n" (repo ∷ show issue ∷ run ∷ author ∷ status ∷ nonce ∷ [])

abbrev pub marker_text : String → String → String → String → String
marker_text run status nonce mac =
    marker_begin <> " run=" <> run <> " status=" <> status <> " nonce=" <> nonce <> " mac=" <> mac
    <> " " <> marker_end

-- The status of a comment is any text that stands there.
pub record ParsedMarker : Type 0 where
  pub run_id : String
  pub status : String
  pub nonce : String
  pub mac : String

abbrev chain {ℓ κ} : {A : Type ℓ} {B : Type κ} → Option A → (A → Option B) → Option B
chain none f = none
chain (some a) f = f a

-- A text that stands here, and what is behind it.
unfoldable pub literal : String → String → Option String
literal String.[] s = some s
literal (String.◌∷◌ c p) String.[] = none
literal (String.◌∷◌ c p) (String.◌∷◌ d s) =
    let rest = literal p s in if code c == code d then rest else none

-- `\s*`.
unfoldable pub skip_spaces : String → String
skip_spaces String.[] = ""
skip_spaces (String.◌∷◌ c s) =
    let rest = skip_spaces s in if is_space (code c) then rest else String.◌∷◌ c s

-- `\s+`.
abbrev pub spaces : String → Option String
spaces String.[] = none
spaces (String.◌∷◌ c s) = if is_space (code c) then some (skip_spaces s) else none

-- The longest start whose characters pass, and what is behind it.
unfoldable pub span : (ℕ → Bool) → String → String × String
span p String.[] = ("", "")
span p (String.◌∷◌ c s) =
    let (word, rest) = span p s in
    if p (code c) then (String.◌∷◌ c word, rest) else ("", String.◌∷◌ c s)

abbrev not_space : ℕ → Bool
not_space n = not (is_space n)

abbrev is_hex : ℕ → Bool
is_hex n = (leb 48 n && leb n 57) || (leb 97 n && leb n 102)

abbrev some_of : String × String → Option (String × String)
some_of (word, rest) = if truthy word then some (word, rest) else none

-- `[^\s]+` and `[0-9a-f]+`. What follows each is of the other kind, so the longest start is the only
-- one that can match.
abbrev pub word : String → Option (String × String)
word s = some_of (span not_space s)

abbrev pub hex : String → Option (String × String)
hex s = some_of (span is_hex s)

-- `name=` and a word, with spaces before.
abbrev pub named : String → String → Option (String × String)
named name s = chain (spaces s) (λ s1. chain (literal name s1) word)

-- The expression of `parseStatusMarker` at one place.
unfoldable pub marker_here : String → Option ParsedMarker
unfolding literal skip_spaces span
marker_here s = chain (literal "<!--" s) λ s1.
    chain (literal "cgao:status-comment-marker" (skip_spaces s1)) λ s2.
      chain (named "run=" s2) λ (run, s3). chain (named "status=" s3) λ (status, s4).
        chain (named "nonce=" s4) λ (nonce, s5). chain (spaces s5) λ s6.
          chain (literal "mac=" s6) λ s7. chain (hex s7) λ (mac, s8).
            chain (literal "-->" (skip_spaces s8))
              λ _. some (record { run_id = run; status = status; nonce = nonce; mac = mac })

abbrev first_of {ℓ} : {A : Type ℓ} → Option A → Option A → Option A
first_of none later = later
first_of (some a) later = some a

-- `parseStatusMarker`: the first place where it matches.
unfoldable pub parse_status_marker : String → Option ParsedMarker
unfolding marker_here
parse_status_marker String.[] = marker_here ""
parse_status_marker (String.◌∷◌ c s) =
    first_of (marker_here (String.◌∷◌ c s)) (parse_status_marker s)

-- A byte from two hexadecimal digits.
abbrev digit : ℕ → Option ℕ
digit n =
    if leb 48 n && leb n 57
    then some (n - 48)
    else if leb 97 n && leb n 102
    then some (n - 87)
    else if leb 65 n && leb n 70
    then some (n - 55)
    else none

abbrev byte : Option ℕ → Option ℕ → Option ℕ
byte (some h) (some l) = some (16 * h + l)
byte (some h) none = none
byte none l = none

abbrev decoded : Option ℕ → List ℕ → List ℕ
decoded none rest = []
decoded (some b) rest = b ∷ rest

-- `Buffer.from(s, 'hex')`: it ends before the first pair that is none of digits.
unfoldable pub hex_bytes : String → List ℕ
hex_bytes String.[] = []
hex_bytes (String.◌∷◌ c String.[]) = []
hex_bytes (String.◌∷◌ c (String.◌∷◌ d s)) =
    decoded (byte (digit (code c)) (digit (code d))) (hex_bytes s)

abbrev pub same_bytes : List ℕ → List ℕ → Bool
same_bytes [] [] = true
same_bytes [] (y ∷ ys) = false
same_bytes (x ∷ xs) [] = false
same_bytes (x ∷ xs) (y ∷ ys) = (x == y) && same_bytes xs ys

unfoldable pub constant_time_hex_equal : String → String → Bool
unfolding units hex_bytes
constant_time_hex_equal a b =
    if not (units a == units b) then false else same_bytes (hex_bytes a) (hex_bytes b)

module _ (hmac_hex : String → String → String) where
  -- `generateStatusMarker`.
  unfoldable pub generate_status_marker :
      (secret : String)
      → (repo : String) → (issue : ℕ) → (run : String) → (author : String) → IssueStatus
      → (nonce : String) → String
  unfolding join show
  generate_status_marker secret repo issue run author status nonce =
      marker_text run (status_name status) nonce
        (hmac_hex secret (signed_data repo issue run author (status_name status) nonce))

  -- `verifyStatusMarker`.
  unfoldable pub verify_status_marker :
      (secret : String) → (repo : String) → (issue : ℕ) → ParsedMarker → (author : String) → Bool
  unfolding join show constant_time_hex_equal
  verify_status_marker secret repo issue p author =
      constant_time_hex_equal
        (hmac_hex secret (signed_data repo issue p.run_id author p.status p.nonce)) p.mac
