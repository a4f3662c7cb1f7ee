-- ===== src/Audit/Chain/Ordering.antt =====
-- Records in the order of their times, and what a record at the end adds.
use github_auto_dev.Base.{
  String, str_eq, ◌≡◌, refl, ap, ◌∙◌, Option, none, some, List, [], ◌∷◌, ◌++◌, Bool, false,
  Bool-cases, inl, inr, All, select, if◌then◌else◌,
}
use github_auto_dev.Base.Dict
use github_auto_dev.Base.Sort
use github_auto_dev.Base.Text.{text_lt}
use github_auto_dev.Audit.Chain.{DbAuditRecord, earlier}

-- The times do not go back.
abbrev pub Chrono : List DbAuditRecord → Type 0
Chrono [] = Unit
Chrono (x ∷ []) = Unit
Chrono (x ∷ y ∷ ys) = (earlier y x ≡ false) × Chrono (y ∷ ys)

Chrono-tail : (x : DbAuditRecord) (xs : List DbAuditRecord) → Chrono (x ∷ xs) → Chrono xs
Chrono-tail x [] h = tt
Chrono-tail x (y ∷ ys) h = h.1

insert-Chrono :
    (x : DbAuditRecord) (xs : List DbAuditRecord)
    → Chrono (x ∷ xs)
    → Sort.insert earlier x xs ≡ x ∷ xs
unfolding Sort.insert
insert-Chrono x [] h = refl
insert-Chrono x (y ∷ ys) h = rw h.0 refl

pub sort-Chrono : (xs : List DbAuditRecord) → Chrono xs → Sort.sort earlier xs ≡ xs
unfolding Sort.sort
sort-Chrono [] h = refl
sort-Chrono (x ∷ xs) h =
    ap (Sort.insert earlier x) (sort-Chrono xs (Chrono-tail x xs h)) ∙ insert-Chrono x xs h

-- No record is later than the new one.
abbrev pub NoneLater : String → List DbAuditRecord → Type 0
NoneLater now rs = All (λ r. text_lt now r.created_at ≡ false) rs

pub Chrono-append :
    (xs : List DbAuditRecord) (x : DbAuditRecord)
    → Chrono xs
    → NoneLater x.created_at xs
    → Chrono (xs ++ x ∷ [])
Chrono-append [] x h k = tt
Chrono-append (y ∷ []) x h k = (k.0, tt)
Chrono-append (y ∷ z ∷ zs) x h k = (h.0, Chrono-append (z ∷ zs) x h.1 k.1)

pub values-set_new :
    (id : String) (r : DbAuditRecord) (m : List (String × DbAuditRecord))
    → Dict.get id m ≡ none
    → Dict.values (Dict.set id r m) ≡ Dict.values m ++ r ∷ []
unfolding Dict.get Dict.set Dict.values
values-set_new id r [] h = refl
values-set_new id r ((j, w) ∷ m) h = elim (Bool-cases (str_eq j id)) [
  | inl t ↦ cc (rw t at h)
  | inr f ↦ rw f (ap (λ vs. w ∷ vs) (values-set_new id r m (rw f at h)))
]

pub select-append_one :
    (p : DbAuditRecord → Bool) (xs : List DbAuditRecord) (x : DbAuditRecord)
    → select p (xs ++ x ∷ []) ≡ (select p xs ++ (if p x then x ∷ [] else []))
unfolding select
select-append_one p [] x = refl
select-append_one p (y ∷ ys) x = elim (Bool-cases (p y)) [
  | inl t ↦ rw t (ap (λ vs. y ∷ vs) (select-append_one p ys x))
  | inr f ↦ rw f (select-append_one p ys x)
]

pub NoneLater-select :
    (now : String) (p : DbAuditRecord → Bool) (xs : List DbAuditRecord)
    → NoneLater now xs
    → NoneLater now (select p xs)
unfolding select
NoneLater-select now p [] h = tt
NoneLater-select now p (x ∷ xs) h = elim (Bool-cases (p x)) [
  | inl t ↦ rw t (h.0, NoneLater-select now p xs h.1)
  | inr f ↦ rw f (NoneLater-select now p xs h.1)
]

-- The hash at the end of a chain.
abbrev pub last_hash : Option String → List DbAuditRecord → Option String
last_hash p [] = p
last_hash p (r ∷ rs) = last_hash (some r.record_hash) rs

pub last_hash-append :
    (p : Option String) (rs : List DbAuditRecord) (x : DbAuditRecord)
    → last_hash p (rs ++ x ∷ []) ≡ some x.record_hash
last_hash-append p [] x = refl
last_hash-append p (r ∷ rs) x = last_hash-append (some r.record_hash) rs x
