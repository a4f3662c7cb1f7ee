-- ===== src/Examples/Audit.antt =====
-- Concrete chains of audit records.
use github_auto_dev.Base.{
  opt_eq, String, ◌≡◌, ◌≢◌, refl, none, some, [], ◌∷◌, select, eq_iff, arith,
}
use github_auto_dev.Base.Dict
use github_auto_dev.Base.Sort
use github_auto_dev.Base.Text.{text_lt, join, show}
use github_auto_dev.Schemas.StableJson.{null, obj, field, end, num, undefined, quote}
use github_auto_dev.Audit.Canonical.{canonicalize}
use github_auto_dev.Audit.Chain.{
  AppendInput, append, list_by_run, compute_record_hash, verify_from, verify_run,
}
use github_auto_dev.Audit.Chain.Integrity.{Says, verify_run-Says}
use github_auto_dev.Audit.Chain.Appends.{append_all, AllOrderly, empty, appends-verify}

index_keys_first :
    canonicalize
      (obj (field "b" (num 1) (field "10" null (field "9" null (field "c" undefined end)))))
    ≡ "{\"9\":null,\"10\":null,\"b\":1}"
unfolding canonicalize Sort.sort Sort.insert text_lt join show quote
index_keys_first = refl

abbrev entry : String → String → AppendInput
entry id at = record { run_id = some "run"; kind = "k"; payload = null; id = id; created_at = at }

abbrev same_hash : String → String
same_hash s = "h"

-- Two records of one run, the second at an earlier time.
clock_back :
    verify_run same_hash "run" (append_all same_hash (entry "1" "t2" ∷ entry "2" "t1" ∷ []) empty)
    ≡ some 0
unfolding verify_run verify_from list_by_run append compute_record_hash Sort.sort Sort.insert
    text_lt select Dict.values Dict.get Dict.set opt_eq
clock_back = refl

verify_run-Says_example :
    Says same_hash none
      (list_by_run "run" (append_all same_hash (entry "1" "t1" ∷ []) empty))
      0
      (verify_run same_hash "run" (append_all same_hash (entry "1" "t1" ∷ []) empty))
verify_run-Says_example =
    verify_run-Says same_hash "run" (append_all same_hash (entry "1" "t1" ∷ []) empty)

scoped : ◌≢◌ {A = String} "run" "<global>"
scoped e = ground (arith, eq_iff "run" "<global>")

orderly : AllOrderly same_hash (entry "1" "t1" ∷ entry "2" "t2" ∷ []) empty
unfolding append compute_record_hash text_lt Dict.values Dict.get Dict.set
orderly = ((refl, tt), ((refl, (refl, tt)), tt))

appends-verify_example :
    verify_run same_hash "run" (append_all same_hash (entry "1" "t1" ∷ entry "2" "t2" ∷ []) empty)
    ≡ none
appends-verify_example =
    appends-verify same_hash "run" (entry "1" "t1" ∷ entry "2" "t2" ∷ []) scoped orderly
