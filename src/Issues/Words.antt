-- ===== src/Issues/Words.antt =====
-- The regular expressions of issues/triage.ts, as searches on texts. A search tries every position
-- and every way to repeat, as the matcher does with backtracking.
pub mod Search
use Prim.Native.Char.{code}
use github_auto_dev.Base.{
  ℕ, ◌+◌, ltb, leb, ◌==◌, String, Bool, true, false, not, ◌&&◌, ◌||◌, if◌then◌else◌, str_eq,
}
use github_auto_dev.Base.Text.{is_space}

-- `s.length`: a character outside the basic plane counts twice.
unfoldable pub units : String → ℕ
units String.[] = 0
units (String.◌∷◌ c s) = let rest = units s in if ltb 65535 (code c) then 2 + rest else 1 + rest

-- `\w`.
abbrev pub is_word : ℕ → Bool
is_word n =
    (leb 48 n && leb n 57) || ((leb 65 n && leb n 90) || ((n == 95) || (leb 97 n && leb n 122)))

-- Whether the character before a position is one of a word: there is none at the start.
abbrev pub begins_word : String → Bool
begins_word String.[] = false
begins_word (String.◌∷◌ c s) = is_word (code c)

abbrev differ : Bool → Bool → Bool
differ true b = not b
differ false b = b

-- The text `needle` here, then `\b`. `before` is whether the last character read is one of a word.
unfoldable pub word_here : Bool → String → String → Bool
word_here before String.[] s = differ before (begins_word s)
word_here before (String.◌∷◌ c p) String.[] = false
word_here before (String.◌∷◌ c p) (String.◌∷◌ d s) =
    (code c == code d) && word_here (is_word (code d)) p s

-- `\bneedle\b` at any position.
unfoldable pub word_from : Bool → String → String → Bool
unfolding word_here
word_from before needle String.[] = differ before (begins_word needle) && word_here before needle ""
word_from before needle (String.◌∷◌ d s) =
    (differ before (is_word (code d)) && word_here before needle (String.◌∷◌ d s))
    || word_from (is_word (code d)) needle s

unfoldable pub has_word : String → String → Bool
unfolding word_from
has_word needle s = word_from false needle s

unfoldable pub starts_with : String → String → Bool
starts_with String.[] s = true
starts_with (String.◌∷◌ c p) String.[] = false
starts_with (String.◌∷◌ c p) (String.◌∷◌ d s) = (code c == code d) && starts_with p s

-- `s.includes(needle)`.
unfoldable pub includes : String → String → Bool
unfolding starts_with
includes needle String.[] = starts_with needle ""
includes needle (String.◌∷◌ d s) = starts_with needle (String.◌∷◌ d s) || includes needle s

-- `s.endsWith(suffix)`.
unfoldable pub ends_with : String → String → Bool
ends_with suffix s = ends s
  where
    ends : String → Bool
    ends String.[] = str_eq suffix ""
    ends (String.◌∷◌ d t) = str_eq suffix (String.◌∷◌ d t) || ends t

-- Any number of characters of a class, then `next`.
unfoldable pub repeated : (ℕ → Bool) → (String → Bool) → String → Bool
repeated p next String.[] = next ""
repeated p next (String.◌∷◌ d s) = next (String.◌∷◌ d s) || (p (code d) && repeated p next s)

-- `[#*\-]`.
abbrev is_mark : ℕ → Bool
is_mark n = (n == 35) || ((n == 42) || (n == 45))

-- `\s*[#*\-]*\s*needle\b` here. What may follow it is optional.
unfoldable pub field_here : String → String → Bool
unfolding repeated word_here
field_here needle =
    repeated is_space (repeated is_mark (repeated is_space (word_here false needle)))

-- The same behind any line break.
unfoldable pub field_below : String → String → Bool
unfolding field_here
field_below needle String.[] = false
field_below needle (String.◌∷◌ d s) =
    ((code d == 10) && field_here needle s) || field_below needle s
