-- ===== src/Issues/Words/Search.antt =====
-- What a search finds in a text that was put together.
use text.Mathlib.TextLemmas.{nil-append, cons-append}
use github_auto_dev.Base.{String, ◌≡◌, refl, true, arith}
use github_auto_dev.Base.Text.{◌<>◌}
use github_auto_dev.Issues.Words.{starts_with, includes}

pub starts_with_refl : (s : String) → starts_with s s ≡ true
unfolding starts_with
starts_with_refl String.[] = refl
starts_with_refl (String.◌∷◌ c s) = ground (arith, starts_with_refl s)

pub starts_with-append : (p s : String) → starts_with p (p <> s) ≡ true
unfolding starts_with
starts_with-append String.[] s = refl
starts_with-append (String.◌∷◌ c p) s =
    rw (cons-append c p s) (ground (arith, starts_with-append p s))

-- What a text starts with is in it.
pub includes-start : (p s : String) → starts_with p s ≡ true → includes p s ≡ true
unfolding includes
includes-start p String.[] h = h
includes-start p (String.◌∷◌ d s) h = ground arith

pub includes-append : (n p s : String) → includes n s ≡ true → includes n (p <> s) ≡ true
unfolding includes
includes-append n String.[] s h = rw (nil-append s) h
includes-append n (String.◌∷◌ c p) s h =
    rw (cons-append c p s) (ground (arith, includes-append n p s h))

-- A text contains its end.
pub includes_end : (n p : String) → includes n (p <> n) ≡ true
includes_end n p = includes-append n p n (includes-start n n (starts_with_refl n))
