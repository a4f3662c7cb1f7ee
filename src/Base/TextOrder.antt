-- ===== src/Base/TextOrder.antt =====
-- The order of texts is total.
use Prim.Native.String.{String}
use mathlib.Core.Path.{◌≡◌, refl}
use mathlib.Core.Bool.{true, false}
use native.Mathlib.Omega.{arith}
use text.Mathlib.TextEquality.{codes_equal}
use github_auto_dev.Base.Text.{text_lt}

-- No text is before one that is before it.
pub text_lt_asym : (s t : String) → text_lt s t ≡ true → text_lt t s ≡ false
unfolding text_lt
text_lt_asym String.[] String.[] h = refl
text_lt_asym String.[] (String.◌∷◌ d t) h = refl
text_lt_asym (String.◌∷◌ c s) String.[] h = cc
text_lt_asym (String.◌∷◌ c s) (String.◌∷◌ d t) h = ground (arith, text_lt_asym s t)

-- What lies between two texts is behind the first or before the second.
pub text_lt_cotrans :
    (r s t : String) → text_lt r t ≡ true → text_lt r s ≡ false → text_lt s t ≡ true
unfolding text_lt
text_lt_cotrans String.[] String.[] t h n = h
text_lt_cotrans String.[] (String.◌∷◌ d s) t h n = cc
text_lt_cotrans (String.◌∷◌ c r) s String.[] h n = cc
text_lt_cotrans (String.◌∷◌ c r) String.[] (String.◌∷◌ e t) h n = refl
text_lt_cotrans (String.◌∷◌ c r) (String.◌∷◌ d s) (String.◌∷◌ e t) h n =
    ground (arith, text_lt_cotrans r s t)

-- Of two different texts one is before the other.
pub text_lt_connex : (s t : String) → text_lt s t ≡ false → text_lt t s ≡ false → s ≡ t
unfolding text_lt
text_lt_connex String.[] String.[] h k = refl
text_lt_connex String.[] (String.◌∷◌ d t) h k = cc
text_lt_connex (String.◌∷◌ c s) String.[] h k = cc
text_lt_connex (String.◌∷◌ c s) (String.◌∷◌ d t) h k =
    let e : c ≡ d = codes_equal c d (ground arith) in
    let e' : s ≡ t = text_lt_connex s t (ground arith) (ground arith) in rw (e, e') refl
