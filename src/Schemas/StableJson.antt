-- ===== src/Schemas/StableJson.antt =====
-- packages/schemas/src/stable-json.ts. The values are those that the program serialises: numbers
-- are natural, and a key of an object stands once.
use Prim.Native.Char.{Char, code}
use Prim.Native.Nat.{◌/◌, ◌%◌}
use github_auto_dev.Base.{
  ℕ, ◌==◌, ltb, String, List, [], ◌∷◌, map, Bool, true, false, if◌then◌else◌,
}
use github_auto_dev.Base.Sort
use github_auto_dev.Base.Text.{◌<>◌, join, show, text_lt}

mutual
  pub data Json : Type 0 where
    null undefined : Json
    bool : Bool → Json
    num : ℕ → Json
    str : String → Json
    arr : Items → Json
    obj : Fields → Json

  pub data Items : Type 0 where
    nil : Items
    cons : Json → Items → Items

  pub data Fields : Type 0 where
    end : Fields
    field : String → Json → Fields → Fields

hex_digit : ℕ → String
hex_digit n =
    if ltb n 10
    then show n
    else if n == 10
    then "a"
    else if n == 11
    then "b"
    else if n == 12
    then "c"
    else if n == 13
    then "d"
    else if n == 14
    then "e"
    else "f"

-- One character of a quoted text.
escape : Char → String
unfolding hex_digit show
escape c =
    let n = code c in
    if n == 34
    then "\\\""
    else if n == 92
    then "\\\\"
    else if n == 8
    then "\\b"
    else if n == 9
    then "\\t"
    else if n == 10
    then "\\n"
    else if n == 12
    then "\\f"
    else if n == 13
    then "\\r"
    else if ltb n 32
    then "\\u00" <> hex_digit (n / 16) <> hex_digit (n % 16)
    else String.◌∷◌ c ""

escape_all : String → String
escape_all String.[] = ""
escape_all (String.◌∷◌ c s) = escape c <> escape_all s

-- `JSON.stringify` of a text.
unfoldable pub quote : String → String
unfolding escape escape_all
quote s = "\"" <> escape_all s <> "\""

abbrev by_key : String × String → String × String → Bool
by_key (k, v) (j, w) = text_lt k j

abbrev pair_text : String × String → String
pair_text (k, v) = quote k <> ":" <> v

unfoldable mutual
  pub stable_json_stringify : Json → String
  stable_json_stringify null = "null"
  stable_json_stringify undefined = "undefined"
  stable_json_stringify (bool true) = "true"
  stable_json_stringify (bool false) = "false"
  stable_json_stringify (num n) = show n
  stable_json_stringify (str s) = quote s
  stable_json_stringify (arr xs) = "[" <> join "," (stringify_items xs) <> "]"
  stable_json_stringify (obj fs) =
      "{" <> join "," (map pair_text (Sort.sort by_key (stringify_fields fs))) <> "}"

  pub stringify_items : Items → List String
  stringify_items nil = []
  stringify_items (cons v vs) = stable_json_stringify v ∷ stringify_items vs

  pub stringify_fields : Fields → List (String × String)
  stringify_fields end = []
  stringify_fields (field k v fs) = (k, stable_json_stringify v) ∷ stringify_fields fs

abbrev pub texts : List String → Items
texts [] = nil
texts (x ∷ xs) = cons (str x) (texts xs)
