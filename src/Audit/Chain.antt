-- ===== src/Audit/Chain.antt =====
-- packages/audit/src/chain-service.ts, the in-memory service. Its queue runs the appends of a key
-- one after the other, so an append is one step; its id and time are arguments, as is SHA-256.
pub mod Integrity
pub mod Ordering
pub mod Appends
use github_auto_dev.Base.{
  ℕ, suc, String, str_eq, opt_eq, Option, none, some, List, [], ◌∷◌, Bool, true, false, ◌&&◌,
  or_else, select, if◌then◌else◌,
}
use github_auto_dev.Base.Dict
use github_auto_dev.Base.Sort
use github_auto_dev.Base.Text.{text_lt, ◌<>◌}
use github_auto_dev.Schemas.StableJson.{Json, null, str, obj, field, end}
use github_auto_dev.Audit.Canonical.{canonicalize}

pub record DbAuditRecord : Type 0 where
  pub id : String
  pub run_id : Option String
  pub previous_hash : Option String
  pub record_hash : String
  pub kind : String
  pub payload : Json
  pub created_at : String

-- The input of `append`, with the id and the time that it is given or takes.
pub record AppendInput : Type 0 where
  pub run_id : Option String
  pub kind : String
  pub payload : Json
  pub id : String
  pub created_at : String

pub record ChainState : Type 0 where
  pub records : List (String × DbAuditRecord)
  pub tails : List (String × DbAuditRecord)

abbrev nullable : Option String → Json
nullable none = null
nullable (some s) = str s

-- `runId ?? '<global>'`.
abbrev pub tail_key : Option String → String
tail_key run = or_else run "<global>"

abbrev pub hash_of : Option DbAuditRecord → Option String
hash_of none = none
hash_of (some r) = some r.record_hash

-- `a.createdAt < b.createdAt`.
abbrev pub earlier : DbAuditRecord → DbAuditRecord → Bool
earlier a b = text_lt a.created_at b.created_at

-- The records of a run, in the order in which they were appended, and `listByRun`.
abbrev pub is_of_run : String → DbAuditRecord → Bool
is_of_run run r = opt_eq r.run_id (some run)

abbrev pub of_run : String → ChainState → List DbAuditRecord
of_run run st = select (is_of_run run) (Dict.values st.records)

unfoldable pub list_by_run : String → ChainState → List DbAuditRecord
list_by_run run st = Sort.sort earlier (of_run run st)

module _ (sha256_hex : String → String) where
  unfoldable pub compute_record_hash :
      (previous : Option String)
      → (kind : String) → (run : Option String) → (created_at : String) → Json
      → String
  compute_record_hash previous kind run created_at payload =
      "sha256:"
      <> sha256_hex (
          canonicalize (
            obj (
              field "previousHash" (nullable previous) (
                field "kind" (str kind) (
                  field "runId" (nullable run)
                    (field "createdAt" (str created_at) (field "payload" payload end)))))))

  unfoldable pub append : AppendInput → ChainState → DbAuditRecord × ChainState
  append i st =
      let key = tail_key i.run_id in
      let previous = hash_of (Dict.get key st.tails) in
      let rec : DbAuditRecord = record {
        id = i.id;
        run_id = i.run_id;
        previous_hash = previous;
        record_hash = compute_record_hash previous i.kind i.run_id i.created_at i.payload;
        kind = i.kind;
        payload = i.payload;
        created_at = i.created_at;
      } in
      (rec, record { records = Dict.set i.id rec st.records; tails = Dict.set key rec st.tails })

  abbrev pub expected_hash : DbAuditRecord → String
  expected_hash r = compute_record_hash r.previous_hash r.kind r.run_id r.created_at r.payload

  -- The loop of `verifyRun` from the record at `index` on.
  unfoldable pub verify_from :
      (previous : Option String) → (index : ℕ) → List DbAuditRecord → Option ℕ
  verify_from previous index [] = none
  verify_from previous index (r ∷ rs) =
      let rest = verify_from (some r.record_hash) (suc index) rs in
      if opt_eq r.previous_hash previous && str_eq (expected_hash r) r.record_hash
      then rest
      else some index

  unfoldable pub verify_run : String → ChainState → Option ℕ
  verify_run run st = verify_from none 0 (list_by_run run st)
