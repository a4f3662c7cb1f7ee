-- ===== src/Intake/Dedup.antt =====
-- intake/dedup.ts. SHA-256 and Unicode's NFC are parameters; times are milliseconds.
pub mod Window
use Prim.Native.Char.{code}
use Prim.Native.String
use github_auto_dev.Base.{
  ℕ, ◌+◌, ◌*◌, ltb, String, Option, none, some, List, [], ◌∷◌, Bool, true, false, if◌then◌else◌,
}
use github_auto_dev.Base.Dict
use github_auto_dev.Base.Text.{◌<>◌, is_space, trim}

pub data IntakeSourceType : Type 0 where
  lark wecom github_issue github_discussion : IntakeSourceType

abbrev source_name : IntakeSourceType → String
source_name lark = "lark"
source_name wecom = "wecom"
source_name github_issue = "github_issue"
source_name github_discussion = "github_discussion"

pub record DedupInput : Type 0 where
  pub source_type : IntakeSourceType
  pub external_id : String
  pub content : String

pub record SessionRow : Type 0 where
  pub session_id : String
  pub opened_at : ℕ
  pub issue_url : Option String

abbrev pub Sessions : Type 0
Sessions = List (String × SessionRow)

-- `replace(/\s+/gu, ' ')`; the flag says that a space has just been written.
abbrev collapse : Bool → String → String
collapse after_space String.[] = ""
collapse after_space (String.◌∷◌ c s) =
    let rest = collapse (is_space (code c)) s in
    if is_space (code c) then (if after_space then rest else " " <> rest) else String.◌∷◌ c rest

-- The result of a claim: whether the row is new, and the row.
pub record Claim : Type 0 where
  pub inserted : Bool
  pub row : SessionRow

abbrev pub new_session : String → ℕ → SessionRow
new_session session now = record { session_id = session; opened_at = now; issue_url = none }

-- `ageMs < windowMs`, which a time before the opening passes as well.
abbrev pub in_window : ℕ → ℕ → SessionRow → Bool
in_window minutes now row = ltb now (row.opened_at + minutes * 60000)

abbrev pub claim_at :
    String → (minutes : ℕ) → String → (now : ℕ) → Sessions → Option SessionRow → Claim × Sessions
claim_at key minutes session now rows none = (
  record { inserted = true; row = new_session session now },
  Dict.set key (new_session session now) rows,
)
claim_at key minutes session now rows (some existing) =
    if in_window minutes now existing
    then (record { inserted = false; row = existing }, rows)
    else (
      record { inserted = true; row = new_session session now },
      Dict.set key (new_session session now) (Dict.remove key rows),
    )

-- `InMemoryDedupStore.claim`.
unfoldable pub claim : String → (minutes : ℕ) → String → (now : ℕ) → Sessions → Claim × Sessions
claim key minutes session now rows = claim_at key minutes session now rows (Dict.get key rows)

pub data DedupResolution : Type 0 where
  fresh : (key content_hash : String) → DedupResolution
  duplicate :
      (key content_hash : String) (session : String) (url : Option String) (opened_at : ℕ)
      → DedupResolution

abbrev pub resolution : String → String → Claim → DedupResolution
resolution key hash c =
    if c.inserted
    then fresh key hash
    else duplicate key hash c.row.session_id c.row.issue_url c.row.opened_at

module _ (sha256_hex nfc : String → String) where
  abbrev hash_intake_content : String → String
  hash_intake_content content = sha256_hex (nfc (collapse false (trim content)))

  unfoldable pub compute_dedup_key : DedupInput → String
  compute_dedup_key i =
      source_name i.source_type <> "|" <> i.external_id <> "|" <> hash_intake_content i.content

  -- `Deduplicator.resolve`.
  unfoldable pub resolve :
      (minutes : ℕ) → DedupInput → String → (now : ℕ) → Sessions → DedupResolution × Sessions
  resolve minutes i session now rows =
      let key = compute_dedup_key i in
      let out = claim key minutes session now rows in
      (resolution key (hash_intake_content i.content) out.0, out.1)
