-- ===== src/Artifacts/Store.antt =====
-- What the in-memory artifact store promises.
use github_auto_dev.Base.{
  String, ◌≡◌, refl, ◌↔◌, ◌≢◌, Option, none, some, true, arith, eq_iff, opt_eq_iff, str_eq, In,
  select_sound, select_complete, ◌&&◌, ◌∙◌, Bool-cases, inl, inr,
}
use github_auto_dev.Base.Dict
use github_auto_dev.Artifacts.{
  ArtifactKind, spec, plan, review, raw_payload, implementation_note, same_kind, Artifact,
  ListFilter, Store, run_fits, kind_fits, list, write, read,
}

-- A filter's text or kind, where it is given, is the artifact's.
abbrev pub RunFits : Option String → Option String → Type 0
RunFits none actual = Unit
RunFits (some run) actual = actual ≡ some run

abbrev pub KindFits : Option ArtifactKind → ArtifactKind → Type 0
KindFits none actual = Unit
KindFits (some kind) actual = actual ≡ kind

abbrev pub Fits : ListFilter → Artifact → Type 0
Fits f a = (a.repo ≡ f.repo) × RunFits f.run_id a.run_id × KindFits f.kind a.kind

same_kind_refl : (a : ArtifactKind) → same_kind a a ≡ true
same_kind_refl spec = refl
same_kind_refl plan = refl
same_kind_refl review = refl
same_kind_refl raw_payload = refl
same_kind_refl implementation_note = refl

same_kind_sound : (a b : ArtifactKind) → same_kind a b ≡ true → a ≡ b
same_kind_sound a b h = ground arith

run_fits_iff : (r a : Option String) → (run_fits r a ≡ true) ↔ RunFits r a
run_fits_iff none a = (λ _. tt, λ _. refl)
run_fits_iff (some r) a = opt_eq_iff a (some r)

kind_fits_iff : (k : Option ArtifactKind) (a : ArtifactKind) → (kind_fits k a ≡ true) ↔ KindFits k a
kind_fits_iff none a = (λ _. tt, λ _. refl)
kind_fits_iff (some k) a = (same_kind_sound a k, λ e. rw e (same_kind_refl k))

-- What `list` returns is what lies in the store with the filter's repository and, where they are
-- given, its run and its kind.
pub list_iff :
    (f : ListFilter) (store : Store) (a : Artifact)
    → In a (list f store) ↔ (In a (Dict.values store) × Fits f a)
unfolding list
list_iff f store a =
    let passes = λ (b : Artifact).
      str_eq b.repo f.repo && (run_fits f.run_id b.run_id && kind_fits f.kind b.kind) in
    let run = run_fits_iff f.run_id a.run_id in
    let kind = kind_fits_iff f.kind a.kind in
    let test : (passes a ≡ true) ↔ Fits f a = ground (arith, run, kind, eq_iff a.repo f.repo) in
    (
      λ i. let r = select_sound passes (Dict.values store) a i in (r.0, test.0 r.1),
      λ h. select_complete passes (Dict.values store) a h.0 (test.1 h.1),
    )

-- What is written can be read under its key, and what is stored under any other key stays.
pub write-read :
    (a : Artifact) (store : Store) (key : String)
    → (read a.key (write a store) ≡ some a)
      × (a.key ≢ key → read key (write a store) ≡ read key store)
unfolding read write
write-read a store key = (Dict.get-set_self a.key a store, λ n. Dict.get-set_ne a.key key a store n)

-- A key under which something is stored.
abbrev pub IsStoredAt : String → Store → Type 0
IsStoredAt key store = (a : Artifact) × (read key store ≡ some a)

pub write-IsStoredAt :
    (a : Artifact) (store : Store) (key : String)
    → IsStoredAt key store
    → IsStoredAt key (write a store)
unfolding read write
write-IsStoredAt a store key (b, e) = elim (Bool-cases (str_eq a.key key)) [
  | inl same ↦ (a, Dict.get-set a.key key a store ∙ rw same refl)
  | inr other ↦ (b, Dict.get-set a.key key a store ∙ rw (other, e) refl)
]
