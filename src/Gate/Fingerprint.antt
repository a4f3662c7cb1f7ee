-- ===== src/Gate/Fingerprint.antt =====
-- gate/fingerprint.ts: the fingerprint of a failure. SHA-256 is a parameter.
use Prim.Native.Char.{Char, code}
use github_auto_dev.Base.{
  ℕ, ◌==◌, leb, String, Option, none, some, Bool, true, false, ◌&&◌, if◌then◌else◌,
}
use github_auto_dev.Schemas.StableJson.{Json, null, str, obj, field, end, stable_json_stringify}
use github_auto_dev.Artifacts.{compute_artifact_key}

-- `FailureSpan` of failure-parser.ts.
pub record FailureSpan : Type 0 where
  pub tool : String
  pub file_path : Option String
  pub line : Option ℕ
  pub rule : Option String
  pub message_template : String

-- `replace(/\\/gu, '/')`.
abbrev slashes : String → String
slashes String.[] = ""
slashes (String.◌∷◌ c s) = String.◌∷◌ (if code c == 92 then "/" else c) (slashes s)

-- `if (p.startsWith('./')) p = p.slice(2)`.
abbrev no_dot : String → String
no_dot (String.◌∷◌ c (String.◌∷◌ d s)) =
    if (code c == 46) && (code d == 47) then s else String.◌∷◌ c (String.◌∷◌ d s)
no_dot s = s

abbrev is_digit : Char → Bool
is_digit c = leb 48 (code c) && leb (code c) 57

-- Where a text of the form `\d*(:\d+)?$` may still go: `groups` colons are left, and a digit has
-- been read since the last one.
abbrev rest_fits : Bool → Bool → String → Bool
rest_fits group_left seen_digit String.[] = seen_digit
rest_fits group_left seen_digit (String.◌∷◌ c s) =
    let after_colon = rest_fits false false s in
    let after_digit = rest_fits group_left true s in
    if is_digit c
    then after_digit
    else (code c == 58) && (seen_digit && (group_left && after_colon))

-- `replace(/:\d+(:\d+)?$/u, '')`.
abbrev no_position : String → String
no_position String.[] = ""
no_position (String.◌∷◌ c s) =
    if (code c == 58) && rest_fits true false s then "" else String.◌∷◌ c (no_position s)

unfoldable pub normalize_file_path : Option String → Option String
normalize_file_path none = none
normalize_file_path (some path) = some (no_position (no_dot (slashes path)))

abbrev text_or_null : Option String → Json
text_or_null none = null
text_or_null (some s) = str s

-- `FingerprintService.fingerprint`.
unfoldable pub fingerprint : (String → String) → FailureSpan → String
unfolding normalize_file_path compute_artifact_key
fingerprint sha256_hex span = compute_artifact_key sha256_hex (
    stable_json_stringify (
      obj (
        field "tool" (str span.tool) (
          field "filePath" (text_or_null (normalize_file_path span.file_path)) (
            field "rule" (text_or_null span.rule)
              (field "messageTemplate" (str span.message_template) end))))))
