-- ===== src/Db/WorkflowRuns/Versions.antt =====
-- What the versions of workflow runs promise.
use github_auto_dev.Base.{
  ℕ, ◌+◌, ◌≤◌, ◌<◌, ◌==◌, String, str_eq, eq_iff, ◌≡◌, refl, ap, ◌∙◌, ◌≢◌, Option, none, some, List,
  [], ◌∷◌, arith, if_true, if_false, Bool-cases, inl, inr,
}
use github_auto_dev.Base.Dict
use github_auto_dev.Db.WorkflowRuns.{
  WorkflowRun, NewWorkflowRunInput, WorkflowRunPatch, Runs, Result, done, not_found,
  create_conflict, conflict, new_run, create_at, create, patched_run, update_row, update,
}

-- A call that changes rows, at some time.
pub data Call : Type 0 where
  creates : NewWorkflowRunInput → (now : ℕ) → Call
  updates : (id : String) (expected : ℕ) → WorkflowRunPatch → (now : ℕ) → Call

abbrev pub after : Call → Runs → Runs
after (creates i now) rows = (create i now rows).1
after (updates id expected patch now) rows = (update id expected patch now rows).1

abbrev pub after_all : List Call → Runs → Runs
after_all [] rows = rows
after_all (c ∷ cs) rows = after_all cs (after c rows)

-- The run is there, at the version or a later one.
abbrev pub IsAtLeast : String → ℕ → Runs → Type 0
IsAtLeast id version rows = (r : WorkflowRun) × (Dict.get id rows ≡ some r) × (version ≤ r.version)

set-IsAtLeast :
    (id key : String) (v : ℕ) (r : WorkflowRun) (rows : Runs)
    → (key ≡ id → v ≤ r.version)
    → IsAtLeast id v rows
    → IsAtLeast id v (Dict.set key r rows)
set-IsAtLeast id key v r rows h (old, found, low) = elim (Bool-cases (str_eq key id)) [
  | inl same ↦ (r, Dict.get-set key id r rows ∙ rw same refl, h ((eq_iff key id).0 same))
  | inr other ↦ (old, Dict.get-set key id r rows ∙ rw other found, low)
]

create_at-IsAtLeast :
    (i : NewWorkflowRunInput) (now : ℕ) (rows : Runs) (o : Option WorkflowRun) (id : String) (v : ℕ)
    → Dict.get i.id rows ≡ o
    → IsAtLeast id v rows
    → IsAtLeast id v (create_at i now rows o).1
create_at-IsAtLeast i now rows (some row) id v e h = h
create_at-IsAtLeast i now rows none id v e h =
    set-IsAtLeast id i.id v (new_run i now) rows
      (λ same. cc (e, ap (λ k. Dict.get k rows) same, h.1)) h

update_row-IsAtLeast :
    (key : String) (expected : ℕ) (patch : WorkflowRunPatch) (now : ℕ) (rows : Runs)
    (o : Option WorkflowRun) (id : String) (v : ℕ)
    → Dict.get key rows ≡ o
    → IsAtLeast id v rows
    → IsAtLeast id v (update_row key expected patch now rows o).1
update_row-IsAtLeast key expected patch now rows none id v e h = h
update_row-IsAtLeast key expected patch now rows (some row) id v e h =
    let next = patched_run row patch now in
    elim (Bool-cases (row.version == expected)) [
      | inr f ↦
          rw
            (if_false {A = Result × Runs} (row.version == expected)
              (done next, Dict.set key next rows) (conflict key expected row.version, rows) f)
            h
      | inl t ↦
          rw
            (if_true {A = Result × Runs} (row.version == expected)
              (done next, Dict.set key next rows) (conflict key expected row.version, rows) t)
            (set-IsAtLeast id key v next rows
              (λ same.
                let r : h.0 ≡ row = cc (e, ap (λ k. Dict.get k rows) same, h.1) in
                let low : v ≤ row.version = rw r at h.2 in omega arith)
              h)
    ]

after-IsAtLeast :
    (c : Call) (rows : Runs) (id : String) (v : ℕ)
    → IsAtLeast id v rows
    → IsAtLeast id v (after c rows)
unfolding create update
after-IsAtLeast (creates i now) rows id v h = create_at-IsAtLeast i now rows _ id v refl h
after-IsAtLeast (updates key expected patch now) rows id v h =
    update_row-IsAtLeast key expected patch now rows _ id v refl h

after_all-IsAtLeast :
    (cs : List Call) (rows : Runs) (id : String) (v : ℕ)
    → IsAtLeast id v rows
    → IsAtLeast id v (after_all cs rows)
after_all-IsAtLeast [] rows id v h = h
after_all-IsAtLeast (c ∷ cs) rows id v h =
    after_all-IsAtLeast cs (after c rows) id v (after-IsAtLeast c rows id v h)

-- What an update does, by the row at its id.
abbrev Updated : String → ℕ → WorkflowRunPatch → ℕ → Runs → Result × Runs → Type 0
Updated id expected patch now rows (done r, end) =
    (row : WorkflowRun) × (Dict.get id rows ≡ some row)
    × (row.version ≡ expected)
    × (r ≡ patched_run row patch now)
    × (end ≡ Dict.set id r rows)
Updated id expected patch now rows (not_found key, end) =
    (Dict.get id rows ≡ none) × (key ≡ id) × (end ≡ rows)
Updated id expected patch now rows (create_conflict key, end) = ⊥
Updated id expected patch now rows (conflict key v w, end) =
    (row : WorkflowRun) × (Dict.get id rows ≡ some row)
    × (row.version ≢ expected)
    × (key ≡ id)
    × (v ≡ expected)
    × (w ≡ row.version)
    × (end ≡ rows)

update_row-Updated :
    (id : String) (expected : ℕ) (patch : WorkflowRunPatch) (now : ℕ) (rows : Runs)
    (o : Option WorkflowRun)
    → Dict.get id rows ≡ o
    → Updated id expected patch now rows (update_row id expected patch now rows o)
update_row-Updated id expected patch now rows none e = (e, refl, refl)
update_row-Updated id expected patch now rows (some row) e =
    let next = patched_run row patch now in
    elim (Bool-cases (row.version == expected)) [
      | inl t ↦
          rw
            (if_true {A = Result × Runs} (row.version == expected)
              (done next, Dict.set id next rows) (conflict id expected row.version, rows) t)
            (row, e, ground arith, refl, refl)
      | inr f ↦
          rw
            (if_false {A = Result × Runs} (row.version == expected)
              (done next, Dict.set id next rows) (conflict id expected row.version, rows) f)
            (row, e, ground arith, refl, refl, refl, refl)
    ]

-- An update succeeds only on a row whose version is the expected one; it then writes that row alone,
-- patched and one version on. Without a row it reports that the run is not found, and for another
-- version a conflict of the two versions; either way the rows stay as they were.
pub update-Updated :
    (id : String) (expected : ℕ) (patch : WorkflowRunPatch) (now : ℕ) (rows : Runs)
    → Updated id expected patch now rows (update id expected patch now rows)
unfolding update
update-Updated id expected patch now rows = update_row-Updated id expected patch now rows _ refl

Updated-grown :
    (id : String) (v : ℕ) (patch : WorkflowRunPatch) (now : ℕ) (rows : Runs) (r : WorkflowRun)
    (out : Result × Runs)
    → Updated id v patch now rows out
    → out.0 ≡ done r
    → IsAtLeast id (v + 1) out.1
Updated-grown id v patch now rows r (done s, end) (row, found, same, next, written) e =
    (s, ap (Dict.get id) written ∙ Dict.get-set_self id s rows, rw next (omega (arith, same)))
Updated-grown id v patch now rows r (not_found key, end) u e = cc
Updated-grown id v patch now rows r (create_conflict key, end) u e = absurd u
Updated-grown id v patch now rows r (conflict key x y, end) u e = cc

-- What a conflict leaves.
abbrev pub IsRefused : String → ℕ → Runs → Result × Runs → Type 0
IsRefused id v rows out = (w : ℕ) × (v < w) × (out.0 ≡ conflict id v w) × (out.1 ≡ rows)

Updated-IsRefused :
    (id : String) (v : ℕ) (patch : WorkflowRunPatch) (now : ℕ) (rows : Runs) (out : Result × Runs)
    → IsAtLeast id (v + 1) rows
    → Updated id v patch now rows out
    → IsRefused id v rows out
Updated-IsRefused id v patch now rows (done s, end) (r, found, low) (row, at_id, same, _, _) =
    let e : r ≡ row = cc (found, at_id) in
    let low' : v + 1 ≤ row.version = rw e at low in absurd (omega arith)
Updated-IsRefused id v patch now rows (not_found key, end) (r, found, low) (gone, _, _) =
    cc (found, gone)
Updated-IsRefused id v patch now rows (create_conflict key, end) h u = absurd u
Updated-IsRefused id v patch now rows (conflict key x y, end) (r, found, low)
      (row, at_id, _, key_is, x_is, y_is, same) =
    let e : r ≡ row = cc (found, at_id) in
    let low' : v + 1 ≤ row.version = rw e at low in
    (row.version, omega arith, cc (key_is, x_is, y_is), same)

-- No update is lost: once an update has succeeded on a version of a run, no other update that
-- expects that version ever succeeds, whatever creations and updates come between. It is refused
-- with a conflict that shows a later version, and changes nothing.
pub update_once :
    (id : String) (v : ℕ) (patch patch2 : WorkflowRunPatch) (now now2 : ℕ) (rows : Runs)
    (r : WorkflowRun) (between : List Call)
    → (update id v patch now rows).0 ≡ done r
    → IsRefused id v
        (after_all between (update id v patch now rows).1)
        (update id v patch2 now2 (after_all between (update id v patch now rows).1))
update_once id v patch patch2 now now2 rows r between h =
    let grown = Updated-grown id v patch now rows r _ (update-Updated id v patch now rows) h in
    Updated-IsRefused id v patch2 now2 _ _ (after_all-IsAtLeast between _ id (v + 1) grown)
      (update-Updated id v patch2 now2 (after_all between (update id v patch now rows).1))
