-- ===== src/Issues/StatusComment/OneComment.antt =====
-- How many status comments an issue has.
use github_auto_dev.Base.{
  ℕ, suc, ◌+◌, ◌==◌, String, ◌≡◌, refl, ap, none, some, List, [], ◌∷◌, ◌++◌, if◌then◌else◌, arith,
  find, Bool-cases, inl, inr, In, here, there, Option-cases, find_sound, eq_iff, str_eq, ◌&&◌, ◌∙◌,
  Bool, true, ◌≤◌, eq_refl, Option,
}
use github_auto_dev.Issues.StatusComment.{
  StatusCommentRecord, get_row, set_row, is_active, Upsert, edited, StatusCommentConfig,
  create_comment, update_comment, fresh_marker, upsert, find_active, Comments,
}

-- How many comments of the bot an issue has.
abbrev pub comments_on : String → ℕ → String → List StatusCommentRecord → ℕ
comments_on repo issue bot [] = 0
comments_on repo issue bot (r ∷ rs) =
    (if is_active repo issue bot r then 1 else 0) + comments_on repo issue bot rs

comments_on-append :
    (repo : String) (issue : ℕ) (bot : String) (rs : List StatusCommentRecord)
    (r : StatusCommentRecord)
    → comments_on repo issue bot (rs ++ r ∷ [])
      ≡ comments_on repo issue bot rs + (if is_active repo issue bot r then 1 else 0)
comments_on-append repo issue bot [] r = omega arith
comments_on-append repo issue bot (x ∷ xs) r = omega (arith, comments_on-append repo issue bot xs r)

-- An edited row counts as the row did.
comments_on-set_row :
    (repo : String) (issue : ℕ) (bot : String) (id : ℕ) (u : Upsert) (marker : String)
    (row : StatusCommentRecord) (rs : List StatusCommentRecord)
    → get_row id rs ≡ some row
    → comments_on repo issue bot (set_row id (edited u marker row) rs)
      ≡ comments_on repo issue bot rs
comments_on-set_row repo issue bot id u marker row [] h = refl
comments_on-set_row repo issue bot id u marker row (r ∷ rs) h =
    elim (Bool-cases (r.comment_id == id)) [
      | inl t ↦ let e : r ≡ row = cc (rw t at h) in rw t (rw e refl)
      | inr f ↦ rw f (
          ap (λ n. (if is_active repo issue bot r then 1 else 0) + n)
            (comments_on-set_row repo issue bot id u marker row rs (rw f at h)))
    ]

get_row-In :
    (rs : List StatusCommentRecord) (e : StatusCommentRecord)
    → In e rs
    → (r : StatusCommentRecord) × (get_row e.comment_id rs ≡ some r)
get_row-In [] e i = elim i [ ]
get_row-In (x ∷ xs) e (here same) = (x, rw same (ground arith))
get_row-In (x ∷ xs) e (there i) = elim (Bool-cases (x.comment_id == e.comment_id)) [
  | inl t ↦ (x, rw t refl)
  | inr f ↦ let (r, h) = get_row-In xs e i in (r, rw f h)
]

none_active :
    (repo : String) (issue : ℕ) (bot : String) (rs : List StatusCommentRecord)
    → find (is_active repo issue bot) rs ≡ none
    → comments_on repo issue bot rs ≡ 0
unfolding find
none_active repo issue bot [] h = refl
none_active repo issue bot (r ∷ rs) h = elim (Bool-cases (is_active repo issue bot r)) [
  | inl t ↦ cc (rw t at h)
  | inr f ↦ rw f (omega (arith, none_active repo issue bot rs (rw f at h)))
]

some_active :
    (repo : String) (issue : ℕ) (bot : String) (rs : List StatusCommentRecord)
    (e : StatusCommentRecord)
    → find (is_active repo issue bot) rs ≡ some e
    → (n : ℕ) × (comments_on repo issue bot rs ≡ suc n)
unfolding find
some_active repo issue bot [] e h = cc
some_active repo issue bot (r ∷ rs) e h = elim (Bool-cases (is_active repo issue bot r)) [
  | inl t ↦ (comments_on repo issue bot rs, rw t (omega arith))
  | inr f ↦ let (n, k) = some_active repo issue bot rs e (rw f at h) in (n, rw f (omega (arith, k)))
]

abbrev pub no_comments : Comments
no_comments = record { rows = []; next_id = 1 }

abbrev next {ℓ κ} : {A : Type ℓ} {B : Type κ} → Option (A × B) → (B → Option B) → Option B
next none f = none
next (some (a, b)) f = f b

module _ (hmac_hex : String → String → String) (c : StatusCommentConfig) where
  -- Whether an upsert is the first for an issue.
  abbrev is_first : Upsert → Comments → String → ℕ → Bool
  is_first u s repo issue =
      (str_eq u.repo repo && (u.issue_number == issue))
      && (comments_on u.repo u.issue_number c.bot_login s.rows == 0)

  -- The comments of the bot on any issue, after an upsert.
  abbrev Counts : Upsert → Comments → Comments → Type 0
  Counts u s after =
      (repo : String) (issue : ℕ)
      → comments_on repo issue c.bot_login after.rows
        ≡ comments_on repo issue c.bot_login s.rows + (if is_first u s repo issue then 1 else 0)

  -- What an upsert returns and leaves.
  record Upserted (u : Upsert) (s : Comments) : Type 0 where
    row : StatusCommentRecord
    after : Comments
    returns : upsert hmac_hex c u s ≡ some (row, after)
    status : row.status ≡ u.status
    counts : Counts u s after

  upserted : (u : Upsert) (s : Comments) → Upserted u s
  unfolding upsert find_active create_comment update_comment
  upserted u s = elim (Option-cases (find (is_active u.repo u.issue_number c.bot_login) s.rows)) [
    | inl absent ↦
        let none_yet = none_active u.repo u.issue_number c.bot_login s.rows absent in
        record {
          row = (create_comment u c.bot_login (fresh_marker hmac_hex c u) s).0;
          after = (create_comment u c.bot_login (fresh_marker hmac_hex c u) s).1;
          returns = rw absent refl;
          status = refl;
          counts = λ repo issue.
              comments_on-append repo issue c.bot_login s.rows
                (create_comment u c.bot_login (fresh_marker hmac_hex c u) s).0
              ∙ ground (arith, none_yet, eq_refl c.bot_login);
        }
    | inr (e, found) ↦
        let (i, active) = find_sound (is_active u.repo u.issue_number c.bot_login) s.rows e found in
        let (r, got) = get_row-In s.rows e i in
        let some_yet = some_active u.repo u.issue_number c.bot_login s.rows e found in
        let mine : (str_eq e.author_login c.bot_login && str_eq e.repo u.repo) ≡ true =
          ground arith in
        record {
          row = edited u (fresh_marker hmac_hex c u) r;
          after = record {
            rows = set_row e.comment_id (edited u (fresh_marker hmac_hex c u) r) s.rows;
            next_id = s.next_id;
          };
          returns = rw (found, mine, got) refl;
          status = refl;
          counts = λ repo issue.
              comments_on-set_row repo issue c.bot_login e.comment_id u (fresh_marker hmac_hex c u)
                r s.rows got
              ∙ ground (arith, some_yet.1);
        }
  ]

  -- Some upserts, one after the other; none of them may throw.
  abbrev pub upserts : List Upsert → Comments → Option Comments
  upserts [] s = some s
  upserts (u ∷ us) s = next (upsert hmac_hex c u s) (upserts us)

  abbrev pub AtMostOne : Comments → Type 0
  AtMostOne s = (repo : String) (issue : ℕ) → comments_on repo issue c.bot_login s.rows ≤ 1

  upserts_from :
      (us : List Upsert) (s : Comments)
      → AtMostOne s
      → (after : Comments) × (upserts us s ≡ some after) × AtMostOne after
  upserts_from [] s h = (s, refl, h)
  upserts_from (u ∷ us) s h =
      let one = upserted u s in
      let still : AtMostOne one.after = λ repo issue.
        let n = one.counts repo issue in
        let m = h repo issue in ground (arith, eq_iff u.repo repo) in
      let (after, ran, rest) = upserts_from us one.after still in (after, rw one.returns ran, rest)

  -- However often the status comments are upserted, from an empty repository on, no upsert throws, and
  -- no issue has more than one comment of the bot.
  pub upserts_one :
      (us : List Upsert)
      → (after : Comments) × (upserts us no_comments ≡ some after)
        × ((repo : String) (issue : ℕ) → comments_on repo issue c.bot_login after.rows ≤ 1)
  upserts_one us = upserts_from us no_comments (λ repo issue. omega arith)
