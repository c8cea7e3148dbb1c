-- ===== src/MemoryStore/Isolation/RevisedBatches.antt =====
-- src/adapters/store/memory.ts: the calls that write many rows keep the revisions within the generation.
use active_ts.Prelude.{ℕ, ◌+◌, ◌≤◌, ◌≡◌, sym, true, false, List, [], ◌∷◌, arith, length}
use active_ts.Prelude.Text.{String}
use active_ts.Prelude.Nested.{Nested, inner_map}
use active_ts.SafeKeys.{assert_safe_schema_identifier}
use active_ts.DataValue.{DataValue}
use active_ts.Errors.{ok, >>=-eq-ok, ok-injective}
use active_ts.MemoryStore.Revisions.{Revisions, record_row_revision}
use active_ts.MemoryStore.Rows.{MemoryStore, set_row}
use active_ts.MemoryStore.Batches.{
  reserve, set_rows, record_deleted, reset, total_rows, record_all, reset_all,
}
use active_ts.MemoryStore.Isolation.Compaction.{record_row_revision-snapshots}
use active_ts.MemoryStore.Isolation.Resets.{record_deleted-snapshots}
use active_ts.MemoryStore.Isolation.ResetAll.{record_all-snapshots}
use active_ts.MemoryStore.Isolation.Bounds.{
  IsBelow, IsRevised, record_row_revision-IsBelow, set_row-IsRevised,
}
use active_ts.MemoryStore.Isolation.Inversion.{SetsRows}
use active_ts.MemoryStore.Isolation.Revised.{reserve-IsRevised}

set_rows-IsRevised :
    (n : String) (rows : List (String × DataValue)) (revision : ℕ) (t : MemoryStore)
    → revision + length rows ≤ t.revisions.generation + 1
    → IsRevised t
    → IsRevised (set_rows n rows revision t)
unfolding set_rows set_row
set_rows-IsRevised n [] revision t room below = below
set_rows-IsRevised n ((k, row) ∷ rows) revision t room below =
    let generation = (record_row_revision-snapshots n k revision true t.revisions).1 in
    set_rows-IsRevised n rows (revision + 1) (set_row n k row revision t)
      (omega (arith, room, generation))
      (set_row-IsRevised n k row revision t (omega (arith, room)) below)

pub SetsRows-IsRevised : {t u : MemoryStore} → SetsRows t u → IsRevised t → IsRevised u
SetsRows-IsRevised {t} set below =
    let (kept, room) =
      reserve-IsRevised (length set.rows) t {u = set.reserved.0} {first = set.reserved.1} below
        set.got in
    rw (sym set.is) (set_rows-IsRevised set.name set.rows set.reserved.1 set.reserved.0 room kept)

record_deleted-IsBelow :
    (bound : ℕ) (n : String) (rows : List (String × DataValue)) (revision : ℕ) (r : Revisions)
    → revision + length rows ≤ bound + 1
    → IsBelow bound r.of_rows
    → IsBelow bound (record_deleted n rows revision r).of_rows
unfolding record_deleted
record_deleted-IsBelow bound n [] revision r room below = below
record_deleted-IsBelow bound n ((k, row) ∷ rows) revision r room below =
    record_deleted-IsBelow bound n rows (revision + 1) (record_row_revision n k revision false r)
      (omega (arith, room))
      (record_row_revision-IsBelow bound n k revision false r (omega (arith, room)) below)

record_all-IsBelow :
    (bound : ℕ) (removed : Nested DataValue) (revision : ℕ) (r : Revisions)
    → revision + total_rows removed ≤ bound + 1
    → IsBelow bound r.of_rows
    → IsBelow bound (record_all removed revision r).of_rows
unfolding record_all total_rows
record_all-IsBelow bound [] revision r room below = below
record_all-IsBelow bound ((n, rows) ∷ removed) revision r room below =
    record_all-IsBelow bound removed (revision + length rows) (record_deleted n rows revision r)
      (omega (arith, room))
      (record_deleted-IsBelow bound n rows revision r (omega (arith, room)) below)

pub reset-IsRevised :
    (model_name : String) (t : MemoryStore) {u : MemoryStore}
    → reset model_name t ≡ ok u
    → IsRevised t
    → IsRevised u
unfolding reset
reset-IsRevised model_name t h below =
    let (name, _, h₁) = >>=-eq-ok (assert_safe_schema_identifier model_name) _ h in
    let deleted = inner_map name t.collections in
    let (reserved, got, h₂) = >>=-eq-ok (reserve (length deleted) t) _ h₁ in
    let (kept, room) =
      reserve-IsRevised (length deleted) t {u = reserved.0} {first = reserved.1} below got in
    rw
      (
        ok-injective (sym h₂),
        (record_deleted-snapshots name deleted reserved.1 reserved.0.revisions).1,
      )
      (record_deleted-IsBelow reserved.0.revisions.generation name deleted reserved.1
        reserved.0.revisions room kept)

pub reset_all-IsRevised :
    (t : MemoryStore) {u : MemoryStore} → reset_all t ≡ ok u → IsRevised t → IsRevised u
unfolding reset_all
reset_all-IsRevised t h below =
    let (reserved, got, h₁) = >>=-eq-ok (reserve (total_rows t.collections) t) _ h in
    let (kept, room) =
      reserve-IsRevised (total_rows t.collections) t {u = reserved.0} {first = reserved.1} below
        got in
    rw
      (
        ok-injective (sym h₁),
        (record_all-snapshots t.collections reserved.1 reserved.0.revisions).1,
      )
      (record_all-IsBelow reserved.0.revisions.generation t.collections reserved.1
        reserved.0.revisions room kept)
