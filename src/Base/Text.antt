-- ===== src/Base/Text.antt =====
-- Texts: concatenation, joining, the decimal form of a number, and the order of code points.
use Prim.Native.Nat.{ℕ, zero, suc, ◌/◌, ◌%◌}
use Prim.Native.Char.{code}
use Prim.Native.String
use Prim.Native.String.{String}
use mathlib.Core.Bool.{Bool, true, false, ◌&&◌, ◌||◌}
use mathlib.Core.List.{List, [], ◌∷◌}
use github_auto_dev.Base.Tests.{◌==◌, ltb, leb, if◌then◌else◌}

infixr 66 ◌<>◌
abbrev pub ◌<>◌ : String → String → String
a <> b = String.◌++◌ a b

-- `xs.join(sep)`.
unfoldable pub join : String → List String → String
join sep [] = ""
join sep (x ∷ []) = x
join sep (x ∷ y ∷ ys) = x <> sep <> join sep (y ∷ ys)

-- `s.slice(0, n)`, counted in characters.
unfoldable pub take_chars : ℕ → String → String
take_chars zero s = ""
take_chars (suc n) String.[] = ""
take_chars (suc n) (String.◌∷◌ c s) = String.◌∷◌ c (take_chars n s)

abbrev digit : ℕ → String
digit n =
    if n == 0
    then "0"
    else if n == 1
    then "1"
    else if n == 2
    then "2"
    else if n == 3
    then "3"
    else if n == 4
    then "4"
    else if n == 5
    then "5"
    else if n == 6
    then "6"
    else if n == 7
    then "7"
    else if n == 8
    then "8"
    else "9"

show_fuel : ℕ → ℕ → String
show_fuel zero n = digit (n % 10)
show_fuel (suc f) n =
    let more = show_fuel f (n / 10) <> digit (n % 10) in if ltb n 10 then digit n else more

-- The decimal form. A number has fewer digits than its value plus one.
unfoldable pub show : ℕ → String
unfolding show_fuel
show n = show_fuel n n

-- `a < b` on texts.
unfoldable pub text_lt : String → String → Bool
text_lt String.[] String.[] = false
text_lt String.[] (String.◌∷◌ d t) = true
text_lt (String.◌∷◌ c s) String.[] = false
text_lt (String.◌∷◌ c s) (String.◌∷◌ d t) =
    ltb (code c) (code d) || ((code c == code d) && text_lt s t)

abbrev is_low_space : ℕ → Bool
is_low_space n = (leb 9 n && leb n 13) || ((n == 32) || ((n == 160) || (n == 5760)))

abbrev is_high_space : ℕ → Bool
is_high_space n =
    (leb 8192 n && leb n 8202)
    || ((n == 8232)
        || ((n == 8233) || ((n == 8239) || ((n == 8287) || ((n == 12288) || (n == 65279))))))

-- White space, as `trim` understands it.
abbrev pub is_space : ℕ → Bool
is_space n = is_low_space n || is_high_space n

-- `!s.trim()`: only white space.
abbrev pub is_blank : String → Bool
is_blank String.[] = true
is_blank (String.◌∷◌ c s) = is_space (code c) && is_blank s

abbrev trim_start : String → String
trim_start String.[] = ""
trim_start (String.◌∷◌ c s) =
    let rest = trim_start s in if is_space (code c) then rest else String.◌∷◌ c s

abbrev trim_end : String → String
trim_end String.[] = ""
trim_end (String.◌∷◌ c s) =
    let rest = trim_end s in if is_space (code c) && is_blank s then "" else String.◌∷◌ c rest

-- `s.trim()`.
unfoldable pub trim : String → String
trim s = trim_end (trim_start s)
