-- ===== src/Audit/Chain/Appends.antt =====
-- What honest appends leave: a chain that verifies.
use github_auto_dev.Base.{
  String, opt_eq, opt_eq_iff, ◌≡◌, refl, sym, ap, ◌∙◌, ◌≢◌, Option, none, some, List, [], ◌∷◌, ◌++◌,
  true, false, Bool-cases, inl, inr, select, if◌then◌else◌,
}
use github_auto_dev.Base.Dict
use github_auto_dev.Audit.Chain.{
  DbAuditRecord, AppendInput, ChainState, tail_key, hash_of, is_of_run, of_run, list_by_run, append,
  verify_run,
}
use github_auto_dev.Audit.Chain.Integrity.{Fits, Linked, verify_from-Linked}
use github_auto_dev.Audit.Chain.Ordering.{
  Chrono, NoneLater, sort-Chrono, Chrono-append, values-set_new, select-append_one,
  NoneLater-select, last_hash, last_hash-append,
}

abbrev pub empty : ChainState
empty = record { records = []; tails = [] }

module _ (sha256_hex : String → String) where
  Linked-append :
      (p : Option String) (rs : List DbAuditRecord) (x : DbAuditRecord)
      → Linked sha256_hex p rs
      → Fits sha256_hex (last_hash p rs) x
      → Linked sha256_hex p (rs ++ x ∷ [])
  Linked-append p [] x h f = (f, tt)
  Linked-append p (r ∷ rs) x h f = (h.0, Linked-append (some r.record_hash) rs x h.1 f)

  record Honest (run : String) (st : ChainState) : Type 0 where
    chrono : Chrono (of_run run st)
    linked : Linked sha256_hex none (of_run run st)
    tail : hash_of (Dict.get run st.tails) ≡ last_hash none (of_run run st)

  -- An append that takes a fresh id, at a time that is not before any record's.
  abbrev pub IsOrderly : AppendInput → ChainState → Type 0
  IsOrderly i st =
      (Dict.get i.id st.records ≡ none) × NoneLater i.created_at (Dict.values st.records)

  of_run-append :
      (run : String) (i : AppendInput) (st : ChainState)
      → Dict.get i.id st.records ≡ none
      → of_run run (append sha256_hex i st).1
        ≡ of_run run st
          ++ (if opt_eq i.run_id (some run) then (append sha256_hex i st).0 ∷ [] else [])
  unfolding append
  of_run-append run i st h =
      ap (select (is_of_run run)) (values-set_new i.id (append sha256_hex i st).0 st.records h)
      ∙ select-append_one (is_of_run run) (Dict.values st.records) (append sha256_hex i st).0

  ++-nil : (xs : List DbAuditRecord) → xs ++ [] ≡ xs
  ++-nil [] = refl
  ++-nil (x ∷ xs) = ap (λ ys. x ∷ ys) (++-nil xs)

  of_run-append_own :
      (run : String) (i : AppendInput) (st : ChainState)
      → i.run_id ≡ some run
      → Dict.get i.id st.records ≡ none
      → of_run run (append sha256_hex i st).1 ≡ of_run run st ++ (append sha256_hex i st).0 ∷ []
  of_run-append_own run i st own fresh =
      let mine : opt_eq i.run_id (some run) ≡ true = (opt_eq_iff i.run_id (some run)).1 own in
      of_run-append run i st fresh ∙ rw mine refl

  append-Fits :
      (run : String) (i : AppendInput) (st : ChainState) (before : Option String)
      → i.run_id ≡ some run
      → hash_of (Dict.get run st.tails) ≡ before
      → Fits sha256_hex before (append sha256_hex i st).0
  unfolding append
  append-Fits run i st before own h =
      let key : tail_key i.run_id ≡ run = ap tail_key own in
      (ap (λ k. hash_of (Dict.get k st.tails)) key ∙ h, refl)

  tail-append_own :
      (run : String) (i : AppendInput) (st : ChainState)
      → i.run_id ≡ some run
      → hash_of (Dict.get run (append sha256_hex i st).1.tails)
        ≡ some (append sha256_hex i st).0.record_hash
  unfolding append
  tail-append_own run i st own =
      let key : tail_key i.run_id ≡ run = ap tail_key own in
      ap hash_of (
        ap (λ k. Dict.get k (append sha256_hex i st).1.tails) (sym key)
        ∙ Dict.get-set_self (tail_key i.run_id) (append sha256_hex i st).0 st.tails)

  now-append :
      (i : AppendInput) (st : ChainState) → (append sha256_hex i st).0.created_at ≡ i.created_at
  unfolding append
  now-append i st = refl

  append-own :
      (run : String) (i : AppendInput) (st : ChainState)
      → i.run_id ≡ some run
      → IsOrderly i st
      → Honest run st
      → Honest run (append sha256_hex i st).1
  append-own run i st own (fresh, now) h =
      let x = (append sha256_hex i st).0 in
      let grown = of_run-append_own run i st own fresh in
      let later : NoneLater x.created_at (of_run run st) =
        rw (now-append i st)
          (NoneLater-select i.created_at (is_of_run run) (Dict.values st.records) now) in
      record {
        chrono = rw grown (Chrono-append (of_run run st) x h.chrono later);
        linked =
            rw grown
              (Linked-append none (of_run run st) x h.linked (append-Fits run i st _ own h.tail));
        tail =
            tail-append_own run i st own
            ∙ sym (ap (last_hash none) grown ∙ last_hash-append none (of_run run st) x);
      }

  tail_key_ne :
      (o : Option String) (run : String) → o ≢ some run → run ≢ "<global>" → tail_key o ≢ run
  tail_key_ne none run n g e = g (sym e)
  tail_key_ne (some r) run n g e = n (ap some e)

  tail-append_other :
      (run : String) (i : AppendInput) (st : ChainState)
      → tail_key i.run_id ≢ run
      → Dict.get run (append sha256_hex i st).1.tails ≡ Dict.get run st.tails
  unfolding append
  tail-append_other run i st n = Dict.get-set_ne (tail_key i.run_id) run _ st.tails n

  append-other :
      (run : String) (i : AppendInput) (st : ChainState)
      → opt_eq i.run_id (some run) ≡ false
      → run ≢ "<global>"
      → IsOrderly i st
      → Honest run st
      → Honest run (append sha256_hex i st).1
  append-other run i st other scoped (fresh, now) h =
      let apart : i.run_id ≢ some run = λ e. cc (other, (opt_eq_iff i.run_id (some run)).1 e) in
      let same : of_run run (append sha256_hex i st).1 ≡ of_run run st =
        of_run-append run i st fresh ∙ rw other (++-nil (of_run run st)) in
      record {
        chrono = rw same h.chrono;
        linked = rw same h.linked;
        tail =
            ap hash_of (tail-append_other run i st (tail_key_ne i.run_id run apart scoped))
            ∙ (h.tail ∙ ap (last_hash none) (sym same));
      }

  append-Honest :
      (run : String) (i : AppendInput) (st : ChainState)
      → run ≢ "<global>"
      → IsOrderly i st
      → Honest run st
      → Honest run (append sha256_hex i st).1
  append-Honest run i st scoped o h = elim (Bool-cases (opt_eq i.run_id (some run))) [
    | inl own ↦ append-own run i st ((opt_eq_iff i.run_id (some run)).0 own) o h
    | inr other ↦ append-other run i st other scoped o h
  ]

  -- Appends one after the other, each of them orderly.
  abbrev pub append_all : List AppendInput → ChainState → ChainState
  append_all [] st = st
  append_all (i ∷ is) st = append_all is (append sha256_hex i st).1

  abbrev pub AllOrderly : List AppendInput → ChainState → Type 0
  AllOrderly [] st = Unit
  AllOrderly (i ∷ is) st = IsOrderly i st × AllOrderly is (append sha256_hex i st).1

  append_all-Honest :
      (run : String) (is : List AppendInput) (st : ChainState)
      → run ≢ "<global>"
      → AllOrderly is st
      → Honest run st
      → Honest run (append_all is st)
  append_all-Honest run [] st scoped o h = h
  append_all-Honest run (i ∷ is) st scoped o h =
      append_all-Honest run is (append sha256_hex i st).1 scoped o.1
        (append-Honest run i st scoped o.0 h)

  empty-Honest : (run : String) → Honest run empty
  unfolding Dict.values Dict.get select
  empty-Honest run = record { chrono = tt; linked = tt; tail = refl }

  -- Whatever runs the records belong to, and however the runs are mixed, appends that take fresh
  -- ids, at times that do not go back, leave a chain that verifies for every run but one that is
  -- called `<global>`.
  pub appends-verify :
      (run : String) (is : List AppendInput)
      → run ≢ "<global>"
      → AllOrderly is empty
      → verify_run sha256_hex run (append_all is empty) ≡ none
  unfolding verify_run list_by_run
  appends-verify run is scoped o =
      let h = append_all-Honest run is empty scoped o (empty-Honest run) in
      rw (sort-Chrono (of_run run (append_all is empty)) h.chrono)
        (verify_from-Linked sha256_hex none 0 (of_run run (append_all is empty)) h.linked)
