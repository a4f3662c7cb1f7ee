-- ===== src/Reconcile/Projection/Repair.antt =====
-- What a repair of labels and of the status comment comes to, and that a second one changes nothing.
use github_auto_dev.Base.{
  ℕ, String, ◌≡◌, refl, ◌∙◌, eq_refl, Bool, true, false, not, ◌&&◌, ◌||◌, List, [], ◌∷◌, arith,
  if◌then◌else◌, has, is_empty, str_eq, In,
}
use github_auto_dev.Base.Sets.{has-select, has-unique}
use github_auto_dev.Issues.Words.{starts_with}
use github_auto_dev.Audit.Chain.{ChainState}
use github_auto_dev.Reconcile.Projection.{
  Ports, LabelReconcileInput, World, is_foreign, add_all, remove_all, labels_to_add,
  labels_to_remove, reconcile_labels,
}

-- What GitHub documents of its labels and comments: a label that is added is on the issue, one that
-- is removed is not, the others stay as they were; a comment that is added is listed.
pub record GithubLaws {ℓ} {G : Type ℓ} (ports : Ports G) (labels : String → ℕ → G → List String)
    : Type ℓ where
  pub added :
      (r : String) (n : ℕ) (l : String) (g : G) (m : String)
      → has (labels r n (ports.add_label r n l g)) m ≡ (str_eq l m || has (labels r n g) m)
  pub removed :
      (r : String) (n : ℕ) (l : String) (g : G) (m : String)
      → has (labels r n (ports.remove_label r n l g)) m ≡ (not (str_eq l m) && has (labels r n g) m)
  pub commented :
      (r : String) (n : ℕ) (b : String) (g : G)
      → In
          (record { id = (ports.add_comment r n b g).0; body = b })
          (ports.list_comments r n (ports.add_comment r n b g).1)

is_empty-[] {ℓ} : {A : Type ℓ} (xs : List A) → is_empty xs ≡ true → xs ≡ []
is_empty-[] [] h = refl
is_empty-[] (x ∷ xs) h = cc

all_has : (xs : List String) → ((m : String) → has xs m ≡ false) → xs ≡ []
all_has [] h = refl
all_has (x ∷ xs) h = let q = h x in let r = eq_refl x in absurd (ground arith)

-- The labels with those of the projection as expected, and the others that were there or expected.
abbrev pub repaired_labels : List String → List String → String → Bool
repaired_labels expected live m =
    if starts_with "cgao:" m then has expected m else has expected m || has live m

module _ {ℓ} {G : Type ℓ} (sha256_hex : String → String) (stamp : ChainState → String × String)
    (ports : Ports G) (labels : String → ℕ → G → List String) (laws : GithubLaws ports labels) where
  abbrev pub shown : LabelReconcileInput → World G → List String
  shown i w = labels i.repo i.issue_number w.github

  has-add_all :
      (i : LabelReconcileInput) (ls : List String) (w : World G) (m : String)
      → has (shown i (add_all sha256_hex stamp ports i ls w)) m ≡ (has ls m || has (shown i w) m)
  has-add_all i [] w m = refl
  has-add_all i (l ∷ ls) w m =
      let more = has-add_all i ls _ m in
      let one = laws.added i.repo i.issue_number l w.github m in more ∙ ground arith

  has-remove_all :
      (i : LabelReconcileInput) (ls : List String) (w : World G) (m : String)
      → has (shown i (remove_all sha256_hex stamp ports i ls w)) m
        ≡ (not (has ls m) && has (shown i w) m)
  has-remove_all i [] w m = refl
  has-remove_all i (l ∷ ls) w m =
      let more = has-remove_all i ls _ m in
      let one = laws.removed i.repo i.issue_number l w.github m in more ∙ ground arith

  -- Where the labels were read from GitHub as they are, a reconciliation leaves on the issue, of the
  -- labels that begin with `cgao:`, exactly the expected ones, and of the others those that were
  -- there or are expected.
  pub repaired_lem :
      (i : LabelReconcileInput) (w : World G)
      → ((m : String) → has i.live_labels m ≡ has (shown i w) m)
      → (m : String)
      → has (shown i (reconcile_labels sha256_hex stamp ports i w).1) m
        ≡ repaired_labels i.expected_labels i.live_labels m
  unfolding reconcile_labels is_foreign
  repaired_lem i w live m =
      let seen = live m in
      let cut =
        has-remove_all i (labels_to_remove i) (add_all sha256_hex stamp ports i (labels_to_add i) w)
          m in
      let put = has-add_all i (labels_to_add i) w m in
      cut ∙ rw put (simp (has-select, has-unique) (ground arith))
