-- ===== src/Audit/Canonical.antt =====
-- `canonicalize` of packages/audit/src/index.ts: JSON.stringify with the keys sorted. An undefined
-- field is left out and an undefined item is null; keys that are array indices come first, in the
-- order of their numbers, whatever the order in which they were put in.
use Prim.Native.Char.{code}
use Prim.Native.Nat.{suc}
use github_auto_dev.Base.{
  ℕ, ◌==◌, ltb, leb, String, str_eq, List, [], ◌∷◌, map, Bool, true, false, not, ◌&&◌, ◌||◌,
  if◌then◌else◌,
}
use github_auto_dev.Base.Sort
use github_auto_dev.Base.Text.{◌<>◌, join, show, text_lt}
use github_auto_dev.Schemas.StableJson.{
  Json, null, undefined, bool, num, str, arr, obj, Items, nil, cons, Fields, end, field, quote,
}

abbrev text_length : String → ℕ
text_length String.[] = 0
text_length (String.◌∷◌ c s) = suc (text_length s)

abbrev all_digits : String → Bool
all_digits String.[] = true
all_digits (String.◌∷◌ c s) = leb 48 (code c) && (leb (code c) 57 && all_digits s)

abbrev leads_with_zero : String → Bool
leads_with_zero String.[] = true
leads_with_zero (String.◌∷◌ c s) = code c == 48

-- A decimal below 2^32 - 1, without a leading zero.
abbrev is_index : String → Bool
is_index s =
    str_eq s "0"
    || (all_digits s
        && (not (leads_with_zero s)
            && (ltb (text_length s) 10 || ((text_length s == 10) && text_lt s "4294967295"))))

abbrev key_before : String → String → Bool
key_before a b =
    if is_index a && is_index b
    then ltb (text_length a) (text_length b) || ((text_length a == text_length b) && text_lt a b)
    else if is_index a
    then true
    else not (is_index b) && text_lt a b

abbrev by_index : String × String → String × String → Bool
by_index (k, v) (j, w) = key_before k j

abbrev entry_text : String × String → String
entry_text (k, v) = quote k <> ":" <> v

unfoldable mutual
  pub canonicalize : Json → String
  canonicalize null = "null"
  canonicalize undefined = "null"
  canonicalize (bool true) = "true"
  canonicalize (bool false) = "false"
  canonicalize (num n) = show n
  canonicalize (str s) = quote s
  canonicalize (arr xs) = "[" <> join "," (canonical_items xs) <> "]"
  canonicalize (obj fs) =
      "{" <> join "," (map entry_text (Sort.sort by_index (canonical_fields fs))) <> "}"

  canonical_items : Items → List String
  canonical_items nil = []
  canonical_items (cons v vs) = canonicalize v ∷ canonical_items vs

  canonical_fields : Fields → List (String × String)
  canonical_fields end = []
  canonical_fields (field k undefined fs) = canonical_fields fs
  canonical_fields (field k v fs) = (k, canonicalize v) ∷ canonical_fields fs
