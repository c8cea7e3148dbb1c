-- ===== src/MemoryStore/Isolation/Generation.antt =====
-- src/adapters/store/memory.ts: the generation of the store bounds the revisions of its rows, commits
-- included.
use active_ts.Prelude.{
  ℕ, ◌+◌, ◌≤◌, ◌≡◌, refl, ◌∙◌, ap, sym, Bool, true, false, Option, none, some, List, [], ◌∷◌, inl,
  inr, arith, if◌then◌else◌, Bool-cases,
}
use active_ts.Prelude.Text.{String, str_eq_iff}
use active_ts.Prelude.Nested.{Nested, find, IsNested, same_place, find-put, find-drop_entry}
use active_ts.DataValue.{DataValue, clone_safe_data}
use active_ts.Errors.{ok, >>=-eq-ok, ok-injective, Result-cases}
use active_ts.MemoryStore.Revisions.{
  oldest_snapshot, end_snapshot, compact_row_revision_tombstones, begin_transaction_snapshot,
  release_transaction_snapshot,
}
use active_ts.MemoryStore.Rows.{MemoryStore, is_some, set_row, unset_row}
use active_ts.MemoryStore.Commit.{
  DirtyChange, creates, updates, deletes, Entry, entries, mutates, mutation_count, write_value,
  delete_value, apply_change, apply_changes, commit_checks, check_changes, check_reads, apply_dirty,
}
use active_ts.MemoryStore.Transaction.{begin, finish}
use active_ts.MemoryStore.Serial.Entries.{found, IsDistinct, entries-IsDistinct}
use active_ts.MemoryStore.Isolation.Compaction.{record_row_revision-snapshots}
use active_ts.MemoryStore.Isolation.Tracking.{reserve-collections}
use active_ts.MemoryStore.Isolation.Applies.{mutation_count-collections}
use active_ts.MemoryStore.Isolation.Bounds.{
  IsRevised, set_row-IsRevised, unset_row-IsRevised, compact_names-IsBelow,
}
use active_ts.MemoryStore.Isolation.Inversion.{
  create-Sets, update-Sets, delete-Unsets, seed-SetsRows,
}
use active_ts.MemoryStore.Isolation.Revised.{reserve-IsRevised, Sets-IsRevised, Unsets-IsRevised}
use active_ts.MemoryStore.Isolation.RevisedBatches.{
  SetsRows-IsRevised, reset-IsRevised, reset_all-IsRevised,
}
use active_ts.MemoryStore.Isolation.Evolution.{
  Evolves, still, created, updated, deleted, seeded, was_reset, were_reset, begun, committed, ended,
}

abbrev counted : Bool → ℕ
counted b = if b then 1 else 0

-- A change at one place that takes a revision or none.
record IsStep (n k : String) (count revision : ℕ) (t u : MemoryStore) (next : ℕ) : Type 0 where
  takes : next ≡ revision + count
  generation : u.revisions.generation ≡ t.revisions.generation
  revised : revision + count ≤ t.revisions.generation + 1 → IsRevised t → IsRevised u
  elsewhere :
      (i j : String) → same_place n k i j ≡ false → find i j u.collections ≡ find i j t.collections

module _ (n k : String) (revision : ℕ) (t : MemoryStore) where
  set_row-IsStep :
      (row : DataValue) → IsStep n k 1 revision t (set_row n k row revision t) (revision + 1)
  unfolding set_row
  set_row-IsStep row = record {
    takes = refl;
    generation = (record_row_revision-snapshots n k revision true t.revisions).1;
    revised = λ room below. set_row-IsRevised n k row revision t (omega (arith, room)) below;
    elsewhere = λ i j other. find-put n k row t.collections i j ∙ rw other refl;
  }

  unset_row-IsStep : IsStep n k 1 revision t (unset_row n k revision t) (revision + 1)
  unfolding unset_row
  unset_row-IsStep = record {
    takes = refl;
    generation = (record_row_revision-snapshots n k revision false t.revisions).1;
    revised = λ room below. unset_row-IsRevised n k revision t (omega (arith, room)) below;
    elsewhere = λ i j other. find-drop_entry n k t.collections i j ∙ rw other refl;
  }

  write_value-IsStep :
      (v : DataValue) {u : MemoryStore} {next : ℕ}
      → write_value n k v revision t ≡ ok (u, next)
      → IsStep n k 1 revision t u next
  unfolding write_value
  write_value-IsStep v h =
      let (row, cloned, h₁) = >>=-eq-ok (clone_safe_data v) _ h in
      rw (sym (ap (λ y. y.0) (ok-injective h₁)), sym (ap (λ y. y.1) (ok-injective h₁)))
        (set_row-IsStep row)

  delete_value-IsStep :
      (row : Option DataValue) {u : MemoryStore} {next : ℕ}
      → delete_value n k row revision t ≡ ok (u, next)
      → IsStep n k (counted (is_some row)) revision t u next
  unfolding delete_value
  delete_value-IsStep none h =
      rw (sym (ap (λ y. y.0) (ok-injective h)), sym (ap (λ y. y.1) (ok-injective h)))
        (record {
          takes = omega arith;
          generation = refl;
          revised = λ room below. below;
          elsewhere = λ i j other. refl;
        })
  delete_value-IsStep (some row) h =
      rw (sym (ap (λ y. y.0) (ok-injective h)), sym (ap (λ y. y.1) (ok-injective h)))
        unset_row-IsStep

  apply_change-IsStep :
      (change : DirtyChange) {u : MemoryStore} {next : ℕ}
      → apply_change n k change revision t ≡ ok (u, next)
      → IsStep n k (counted (mutates change (find n k t.collections))) revision t u next
  unfolding apply_change
  apply_change-IsStep (creates v) h = write_value-IsStep v h
  apply_change-IsStep (updates v e) h = write_value-IsStep v h
  apply_change-IsStep (deletes e) h = delete_value-IsStep (find n k t.collections) h

same_place_symm : (n k i j : String) → same_place n k i j ≡ same_place i j n k
same_place_symm n k i j =
    ground (arith, str_eq_iff n i, str_eq_iff i n, str_eq_iff k j, str_eq_iff j k)

-- A change at a place that others do not change leaves their count.
mutation_count-elsewhere :
    (n k : String) (rest : List (Entry DirtyChange)) (u t : MemoryStore)
    → ((i j : String)
        → same_place n k i j ≡ false
        → find i j u.collections ≡ find i j t.collections)
    → found n k rest ≡ none
    → mutation_count rest u ≡ mutation_count rest t
unfolding mutation_count found
mutation_count-elsewhere n k [] u t same absent = refl
mutation_count-elsewhere n k ((i, j, change) ∷ rest) u t same absent =
    elim (Bool-cases (same_place i j n k)) [
      | inl here ↦ absurd (cc (rw here at absent))
      | inr other ↦
          rw
            (
              same i j (same_place_symm n k i j ∙ other),
              mutation_count-elsewhere n k rest u t same (rw other at absent),
            )
            refl
    ]

apply_changes-IsRevised :
    (changes : List (Entry DirtyChange)) (revision : ℕ) (t : MemoryStore)
    → IsDistinct changes
    → revision + mutation_count changes t ≤ t.revisions.generation + 1
    → IsRevised t
    → IsRevised (apply_changes changes revision t).0
unfolding apply_changes mutation_count
apply_changes-IsRevised [] revision t distinct room below = below
apply_changes-IsRevised ((n, k, change) ∷ rest) revision t distinct room below =
    elim (Result-cases (apply_change n k change revision t)) [
      | inr (x, failing) ↦ rw (failing, apply_changes) below
      | inl ((u, next), applied) ↦
          let step = apply_change-IsStep n k revision t change {u = u} {next = next} applied in
          let others = mutation_count-elsewhere n k rest u t step.elsewhere distinct.0 in
          rw (applied, apply_changes)
            (apply_changes-IsRevised rest next u distinct.1
              (omega (arith, step.takes, step.generation, others, room))
              (step.revised (omega (arith, room)) below))
    ]

apply_dirty-IsRevised :
    (dirty : Nested DirtyChange) (reads : Nested (Unit {0})) (snapshot : ℕ) (t : MemoryStore)
    → IsNested dirty
    → IsRevised t
    → IsRevised (apply_dirty dirty reads snapshot t).0
unfolding apply_dirty commit_checks
apply_dirty-IsRevised dirty reads snapshot t nested below =
    elim (Result-cases (commit_checks dirty reads snapshot t)) [
      | inr (x, failing) ↦ rw (failing, apply_dirty) below
      | inl ((u, first), checked) ↦
          let (_, _, h₁) = >>=-eq-ok (check_changes (entries dirty) t) _ checked in
          let (_, _, h₂) = >>=-eq-ok (check_reads snapshot (entries reads) t) _ h₁ in
          let (kept, room) =
            reserve-IsRevised (mutation_count (entries dirty) t) t {u = u} {first = first} below
              h₂ in
          let count =
            mutation_count-collections (entries dirty) u t (
              reserve-collections (mutation_count (entries dirty) t) t {u = u} {first = first}
                h₂) in
          rw (checked, apply_dirty)
            (apply_changes-IsRevised (entries dirty) first u (entries-IsDistinct dirty nested)
              (omega (arith, count, room)) kept)
    ]

finish-IsRevised : (snapshot : ℕ) (t : MemoryStore) → IsRevised t → IsRevised (finish snapshot t)
unfolding finish release_transaction_snapshot compact_row_revision_tombstones
finish-IsRevised snapshot t below =
    compact_names-IsBelow t.revisions.generation
      (oldest_snapshot (end_snapshot snapshot t.revisions.snapshots)) t.revisions.tombstones
      t.revisions.of_rows below

begin-IsRevised : (t : MemoryStore) → IsRevised t → IsRevised (begin t)
unfolding begin begin_transaction_snapshot
begin-IsRevised t below = below

-- From a store in which no row has a revision after the generation, calls of any kind in any order, commits of
-- transactions included, whether they succeed or throw, lead to such a store again.
pub Evolves-IsRevised :
    (s : ℕ) {before t : MemoryStore} → Evolves s before t → IsRevised before → IsRevised t
Evolves-IsRevised s still below = below
Evolves-IsRevised s (created model id row e h) below =
    Sets-IsRevised (create-Sets model id _ row h) (Evolves-IsRevised s e below)
Evolves-IsRevised s (updated model id row expected e h) below =
    Sets-IsRevised (update-Sets model id _ row expected h) (Evolves-IsRevised s e below)
Evolves-IsRevised s (deleted model id expected e h) below =
    Unsets-IsRevised (delete-Unsets model id expected _ h) (Evolves-IsRevised s e below)
Evolves-IsRevised s (seeded model seeds e h) below =
    SetsRows-IsRevised (seed-SetsRows model seeds _ h) (Evolves-IsRevised s e below)
Evolves-IsRevised s (was_reset name e h) below =
    reset-IsRevised name _ h (Evolves-IsRevised s e below)
Evolves-IsRevised s (were_reset e h) below = reset_all-IsRevised _ h (Evolves-IsRevised s e below)
Evolves-IsRevised s (begun e) below = begin-IsRevised _ (Evolves-IsRevised s e below)
Evolves-IsRevised s (committed dirty reads snapshot nested e) below =
    apply_dirty-IsRevised dirty reads snapshot _ nested (Evolves-IsRevised s e below)
Evolves-IsRevised s (ended snapshot e shared) below =
    finish-IsRevised snapshot _ (Evolves-IsRevised s e below)
