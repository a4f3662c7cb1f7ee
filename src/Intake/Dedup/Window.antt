-- ===== src/Intake/Dedup/Window.antt =====
-- One session for a request within the window.
use github_auto_dev.Base.{
  ℕ, ◌+◌, ◌*◌, ◌<◌, String, str_eq, eq_iff, ◌≡◌, refl, ap, ◌∙◌, ◌≢◌, Option, none, some, List, [],
  ◌∷◌, true, false, arith, Bool-cases, inl, inr, All, if_true, if_false,
}
use github_auto_dev.Base.Dict
use github_auto_dev.Intake.Dedup.{
  DedupInput, SessionRow, Sessions, Claim, new_session, in_window, claim_at, claim, DedupResolution,
  fresh, duplicate, resolution, compute_dedup_key, resolve,
}

claim_at-kept :
    (key other : String) (minutes : ℕ) (session : String) (now : ℕ) (rows : Sessions)
    (o : Option SessionRow) (row : SessionRow)
    → Dict.get other rows ≡ o
    → Dict.get key rows ≡ some row
    → now < row.opened_at + minutes * 60000
    → Dict.get key (claim_at other minutes session now rows o).1 ≡ some row
claim_at-kept key other minutes session now rows none row e h low =
    Dict.get-set_ne other key (new_session session now) rows
      (λ same. cc (e, h, ap (λ k. Dict.get k rows) same))
    ∙ h
claim_at-kept key other minutes session now rows (some old) row e h low =
    elim (Bool-cases (in_window minutes now old)) [
      | inl t ↦
          rw
            (if_true {A = Claim × Sessions} (in_window minutes now old)
              (record { inserted = false; row = old }, rows)
              (
                record { inserted = true; row = new_session session now },
                Dict.set other (new_session session now) (Dict.remove other rows),
              )
              t)
            h
      | inr f ↦
          let apart : other ≢ key = λ same.
            (let r : old ≡ row = cc (e, h, ap (λ k. Dict.get k rows) same) in
              let f' : in_window minutes now row ≡ false = rw r at f in ground arith) in
          rw
            (if_false {A = Claim × Sessions} (in_window minutes now old)
              (record { inserted = false; row = old }, rows)
              (
                record { inserted = true; row = new_session session now },
                Dict.set other (new_session session now) (Dict.remove other rows),
              )
              f)
            (Dict.get-set_ne other key (new_session session now) (Dict.remove other rows) apart
              ∙ (Dict.get-remove other key rows
                  ∙ (if_false (str_eq other key) none (Dict.get key rows)
                        (ground (arith, eq_iff other key))
                      ∙ h)))
    ]

-- A claim that is inserted has written its row.
claim_at-inserted :
    (key : String) (minutes : ℕ) (session : String) (now : ℕ) (rows : Sessions)
    (o : Option SessionRow)
    → (claim_at key minutes session now rows o).0.inserted ≡ true
    → Dict.get key (claim_at key minutes session now rows o).1 ≡ some (new_session session now)
claim_at-inserted key minutes session now rows none h =
    Dict.get-set_self key (new_session session now) rows
claim_at-inserted key minutes session now rows (some old) h =
    elim (Bool-cases (in_window minutes now old)) [
      | inl t ↦ cc (
          rw
            (if_true {A = Claim × Sessions} (in_window minutes now old)
              (record { inserted = false; row = old }, rows)
              (
                record { inserted = true; row = new_session session now },
                Dict.set key (new_session session now) (Dict.remove key rows),
              )
              t)
            at h)
      | inr f ↦
          rw
            (if_false {A = Claim × Sessions} (in_window minutes now old)
              (record { inserted = false; row = old }, rows)
              (
                record { inserted = true; row = new_session session now },
                Dict.set key (new_session session now) (Dict.remove key rows),
              )
              f)
            (Dict.get-set_self key (new_session session now) (Dict.remove key rows))
    ]

claim_at-held :
    (key : String) (minutes : ℕ) (session : String) (now : ℕ) (rows : Sessions) (row : SessionRow)
    → now < row.opened_at + minutes * 60000
    → claim_at key minutes session now rows (some row)
      ≡ (record { inserted = false; row = row }, rows)
claim_at-held key minutes session now rows row h =
    if_true {A = Claim × Sessions} (in_window minutes now row) _ _ (ground arith)

-- A request with the session that it would open, at a time in milliseconds.
pub record Request : Type 0 where
  pub input : DedupInput
  pub session : String
  pub now : ℕ

module _ (sha256_hex nfc : String → String) where
  abbrev pub resolve_all : (minutes : ℕ) → List Request → Sessions → Sessions
  resolve_all minutes [] rows = rows
  resolve_all minutes (r ∷ rs) rows =
      resolve_all minutes rs (resolve sha256_hex nfc minutes r.input r.session r.now rows).1

  resolve_all-kept :
      (key : String) (minutes : ℕ) (rs : List Request) (rows : Sessions) (row : SessionRow)
      → Dict.get key rows ≡ some row
      → All (λ r. r.now < row.opened_at + minutes * 60000) rs
      → Dict.get key (resolve_all minutes rs rows) ≡ some row
  unfolding resolve claim
  resolve_all-kept key minutes [] rows row h low = h
  resolve_all-kept key minutes (r ∷ rs) rows row h low =
      resolve_all-kept key minutes rs _ row
        (claim_at-kept key (compute_dedup_key sha256_hex nfc r.input) minutes r.session r.now rows _
          row refl h low.0)
        low.1

  fresh_inserted :
      (key hash : String) (c : Claim) (k2 h2 : String)
      → resolution key hash c ≡ fresh k2 h2
      → c.inserted ≡ true
  fresh_inserted key hash c k2 h2 e = elim (Bool-cases c.inserted) [
    | inl t ↦ t
    | inr f ↦ cc (
      e,
      if_false {A = DedupResolution} c.inserted (fresh key hash)
          (duplicate key hash c.row.session_id c.row.issue_url c.row.opened_at) f,
    )
  ]

  resolve-stored :
      (minutes : ℕ) (i : DedupInput) (session : String) (now : ℕ) (rows : Sessions)
      (key hash : String)
      → (resolve sha256_hex nfc minutes i session now rows).0 ≡ fresh key hash
      → Dict.get
          (compute_dedup_key sha256_hex nfc i)
          (resolve sha256_hex nfc minutes i session now rows).1
        ≡ some (new_session session now)
  unfolding resolve claim
  resolve-stored minutes i session now rows key hash h =
      claim_at-inserted (compute_dedup_key sha256_hex nfc i) minutes session now rows _
        (fresh_inserted _ _ _ key hash h)

  -- What a duplicate is told: the session that is there, and nothing changes.
  abbrev pub IsDuplicateOf : String → ℕ → Sessions → DedupResolution × Sessions → Type 0
  IsDuplicateOf session opened rows out =
      ((key : String) × (hash : String) × (out.0 ≡ duplicate key hash session none opened))
      × (out.1 ≡ rows)

  resolve-held :
      (minutes : ℕ) (i : DedupInput) (session : String) (now : ℕ) (rows : Sessions) (first : String)
      (opened : ℕ)
      → Dict.get (compute_dedup_key sha256_hex nfc i) rows ≡ some (new_session first opened)
      → now < opened + minutes * 60000
      → IsDuplicateOf first opened rows (resolve sha256_hex nfc minutes i session now rows)
  unfolding resolve claim
  resolve-held minutes i session now rows first opened h low =
      rw
        (
          h,
          claim_at-held (compute_dedup_key sha256_hex nfc i) minutes session now rows
              (new_session first opened) low,
        )
        ((_, _, refl), refl)

  -- A request that opens a session is the only one with its key that does so within the window:
  -- whatever other requests come in between, every request with the same key whose time is before
  -- the end of the window is a duplicate of that session, and changes nothing.
  pub resolve_once :
      (minutes : ℕ) (i j : DedupInput) (first second : String) (opened now : ℕ) (rows : Sessions)
      (key hash : String) (between : List Request)
      → (resolve sha256_hex nfc minutes i first opened rows).0 ≡ fresh key hash
      → compute_dedup_key sha256_hex nfc j ≡ compute_dedup_key sha256_hex nfc i
      → All (λ r. r.now < opened + minutes * 60000) between
      → now < opened + minutes * 60000
      → IsDuplicateOf first opened
          (resolve_all minutes between (resolve sha256_hex nfc minutes i first opened rows).1)
          (resolve sha256_hex nfc minutes j second now
            (resolve_all minutes between (resolve sha256_hex nfc minutes i first opened rows).1))
  resolve_once minutes i j first second opened now rows key hash between h same low in_time =
      let held = resolve-stored minutes i first opened rows key hash h in
      let after =
        resolve_all-kept _ minutes between (resolve sha256_hex nfc minutes i first opened rows).1
          (new_session first opened) held low in
      resolve-held minutes j second now _ first opened
        (ap
            (λ k.
              Dict.get k (
                resolve_all minutes between (resolve sha256_hex nfc minutes i first opened rows).1))
            same
          ∙ after)
        in_time
