-- ===== src/Audit/Chain/Integrity.antt =====
-- What `verifyRun` reports.
use github_auto_dev.Base.{
  ℕ, suc, ◌+◌, String, str_eq, eq_iff, opt_eq, opt_eq_iff, ◌≡◌, refl, ◌↔◌, Option, none, some, List,
  [], ◌∷◌, true, ◌&&◌, arith, Bool-cases, inl, inr,
}
use github_auto_dev.Audit.Chain.{
  DbAuditRecord, ChainState, list_by_run, expected_hash, verify_from, verify_run,
}

module _ (sha256_hex : String → String) where
  -- The record has the hash of the one before and the hash of its own content.
  abbrev pub Fits : Option String → DbAuditRecord → Type 0
  Fits previous r = (r.previous_hash ≡ previous) × (r.record_hash ≡ expected_hash sha256_hex r)

  abbrev pub Linked : Option String → List DbAuditRecord → Type 0
  Linked previous [] = Unit
  Linked previous (r ∷ rs) = Fits previous r × Linked (some r.record_hash) rs

  -- The first record that does not fit is the one at the index.
  pub data BreaksAt : Option String → ℕ → List DbAuditRecord → Type 0 where
    breaks :
        {p : Option String} {r : DbAuditRecord} {rs : List DbAuditRecord}
        → ¬ Fits p r
        → BreaksAt p 0 (r ∷ rs)
    later :
        {p : Option String} {n : ℕ} {r : DbAuditRecord} {rs : List DbAuditRecord}
        → Fits p r
        → BreaksAt (some r.record_hash) n rs
        → BreaksAt p (suc n) (r ∷ rs)

  -- What a report says of the records.
  abbrev pub Says : Option String → List DbAuditRecord → ℕ → Option ℕ → Type 0
  Says p rs start none = Linked p rs
  Says p rs start (some n) = (k : ℕ) × (n ≡ start + k) × BreaksAt p k rs

  Fits-iff :
      (p : Option String) (r : DbAuditRecord)
      → ((opt_eq r.previous_hash p && str_eq (expected_hash sha256_hex r) r.record_hash) ≡ true)
        ↔ Fits p r
  Fits-iff p r =
      ground
        (arith, opt_eq_iff r.previous_hash p, eq_iff (expected_hash sha256_hex r) r.record_hash)

  one_later :
      (p : Option String) (r : DbAuditRecord) (rs : List DbAuditRecord) (start : ℕ) (o : Option ℕ)
      → Fits p r
      → Says (some r.record_hash) rs (suc start) o
      → Says p (r ∷ rs) start o
  one_later p r rs start none f h = (f, h)
  one_later p r rs start (some n) f (k, e, b) = (suc k, omega arith, later f b)

  verify_from-Says :
      (p : Option String) (start : ℕ) (rs : List DbAuditRecord)
      → Says p rs start (verify_from sha256_hex p start rs)
  unfolding verify_from
  verify_from-Says p start [] = tt
  verify_from-Says p start (r ∷ rs) =
      elim (Bool-cases
        (opt_eq r.previous_hash p && str_eq (expected_hash sha256_hex r) r.record_hash)) [
          | inl t ↦ rw t (
              one_later p r rs start _ ((Fits-iff p r).0 t)
                (verify_from-Says (some r.record_hash) (suc start) rs))
          | inr f ↦ rw f (0, omega arith, breaks (λ g. cc (f, (Fits-iff p r).1 g)))
        ]

  -- `verifyRun` reports nothing only if every record of the run, in the order of their times, has
  -- the hash of the one before, or none for the first, and the hash of its own content. Otherwise it
  -- reports the index of the first record that has not.
  pub verify_run-Says :
      (run : String) (st : ChainState)
      → Says none (list_by_run run st) 0 (verify_run sha256_hex run st)
  unfolding verify_run
  verify_run-Says run st = verify_from-Says none 0 (list_by_run run st)

  pub verify_from-Linked :
      (p : Option String) (start : ℕ) (rs : List DbAuditRecord)
      → Linked p rs
      → verify_from sha256_hex p start rs ≡ none
  unfolding verify_from
  verify_from-Linked p start [] h = refl
  verify_from-Linked p start (r ∷ rs) h =
      rw ((Fits-iff p r).1 h.0) (verify_from-Linked (some r.record_hash) (suc start) rs h.1)
