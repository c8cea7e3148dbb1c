-- ===== src/MemoryStore/Serial/Alone.antt =====
-- src/adapters/store/memory.ts: the commit of a transaction that no other call has come between.
use active_ts.Prelude.{
  ℕ, ◌+◌, ◌≤◌, ◌≡◌, refl, ◌∙◌, sym, true, Option, none, some, List, [], ◌∷◌, arith, if◌then◌else◌,
  Bool-cases, inl, inr, ◌==◌, ltb, le→leb,
}
use active_ts.Prelude.Text.{String}
use active_ts.Prelude.Nested.{Nested, find}
use active_ts.DataValue.{DataValue}
use active_ts.Errors.{ok}
use active_ts.MemoryStore.Revisions.{
  reserve_row_revisions, max_row_revision, begin_transaction_snapshot,
}
use active_ts.MemoryStore.Rows.{MemoryStore, is_some, check_version, check_delete}
use active_ts.MemoryStore.Batches.{reserve}
use active_ts.MemoryStore.Commit.{
  DirtyChange, creates, updates, deletes, Entry, entries, is_unchanged, check_change, check_changes,
  check_reads, mutation_count, apply_changes, commit_checks, apply_dirty,
}
use active_ts.MemoryStore.Transaction.{Transaction, begin, Runs}
use active_ts.MemoryStore.Isolation.Bounds.{IsRevised}
use active_ts.MemoryStore.Isolation.Applies.{mutation_count-collections}
use active_ts.MemoryStore.Serial.Entries.{found, found-entries, entries-IsDistinct, IsDistinct}
use active_ts.MemoryStore.Serial.Places.{Overlaid, Fits}
use active_ts.MemoryStore.Serial.Overlay.{Runs-IsOverlay}
use active_ts.MemoryStore.Serial.Effects.{found-rest, found-first}
use active_ts.MemoryStore.Serial.Commits.{apply_changes-Overlay}
use active_ts.MemoryStore.Isolation.Tracking.{reserve-collections}

abbrev FitsMark : Option DataValue → Option DirtyChange → Type 0
FitsMark before none = Unit
FitsMark before (some change) = Fits before change

Overlaid-fits :
    (before after : Option DataValue) (mark : Option DirtyChange)
    → Overlaid before after mark
    → FitsMark before mark
Overlaid-fits before after none h = tt
Overlaid-fits before after (some change) h = h.1

Overlaid-after :
    (before after : Option DataValue) (mark : Option DirtyChange)
    → Overlaid before after mark
    → (if is_some mark then after else before) ≡ after
Overlaid-after before after none h = sym h
Overlaid-after before after (some change) h = refl

check_delete-Fits :
    (before : Option DataValue) (expected : Option ℕ)
    → is_some before ≡ true
    → check_version before expected ≡ ok tt
    → check_delete before expected ≡ ok tt
check_delete-Fits before none there h = refl
check_delete-Fits none (some e) there h = absurd (cc (there))
check_delete-Fits (some row) (some e) there h = h

check_change-Fits :
    (before : Option DataValue) (change : DirtyChange)
    → Fits before change
    → check_change change before ≡ ok tt
unfolding check_change
check_change-Fits before (creates v) h = rw h refl
check_change-Fits before (updates v e) h = rw (h.0, h.1) refl
check_change-Fits before (deletes e) h = check_delete-Fits before e h.0 h.1

check_changes-Fits :
    (changes : List (Entry DirtyChange)) (s : MemoryStore)
    → IsDistinct changes
    → ((i j : String) → FitsMark (find i j s.collections) (found i j changes))
    → check_changes changes s ≡ ok tt
unfolding check_changes
check_changes-Fits [] s distinct fits = refl
check_changes-Fits ((n, k, change) ∷ rest) s distinct fits =
    let here = rw (found-first n k change rest) at (fits n k) in
    rw (check_change-Fits (find n k s.collections) change here) (
      check_changes-Fits rest s distinct.1 λ i j.
        found-rest n k change rest (FitsMark (find i j s.collections)) i j distinct.0 tt (fits i j))

is_unchanged-le :
    (snapshot : ℕ) (revision : Option ℕ)
    → ((r : ℕ) → revision ≡ some r → r ≤ snapshot)
    → is_unchanged snapshot revision ≡ true
is_unchanged-le snapshot none below = refl
is_unchanged-le snapshot (some r) below = let le : r ≤ snapshot = below r refl in ground arith

check_reads-IsRevised :
    (reads : List (Entry (Unit {0}))) (s : MemoryStore)
    → IsRevised s
    → check_reads s.revisions.generation reads s ≡ ok tt
unfolding check_reads
check_reads-IsRevised [] s revised = refl
check_reads-IsRevised ((n, k, read) ∷ reads) s revised =
    rw (is_unchanged-le s.revisions.generation (find n k s.revisions.of_rows) (revised n k))
      (check_reads-IsRevised reads s revised)

-- There are revisions left for so many rows.
reserve-room :
    (count : ℕ) (s : MemoryStore)
    → s.revisions.generation + count ≤ max_row_revision
    → (reserved : MemoryStore × ℕ) × (reserve count s ≡ ok reserved)
unfolding reserve reserve_row_revisions
reserve-room count s room = elim (Bool-cases (count == 0)) [
  | inl nothing ↦ ((s, 0), rw (nothing, reserve) refl)
  | inr some_rows ↦
      let positive : ltb 0 count ≡ true = ground (arith) in
      let generation = s.revisions.generation + count in
      (
        (
          record s { revisions = record s.revisions { generation = generation } },
          s.revisions.generation + 1,
        ),
        rw (some_rows, reserve, positive, le→leb _ _ room) refl,
      )
]

-- A commit that passes its checks, and whose changes are applied.
commit_checked :
    (dirty : Nested DirtyChange) (reads : Nested (Unit {0})) (snapshot : ℕ) (s u : MemoryStore)
    (first : ℕ)
    → check_changes (entries dirty) s ≡ ok tt
    → check_reads snapshot (entries reads) s ≡ ok tt
    → reserve (mutation_count (entries dirty) s) s ≡ ok (u, first)
    → (apply_changes (entries dirty) first u).1 ≡ ok tt
    → apply_dirty dirty reads snapshot s ≡ ((apply_changes (entries dirty) first u).0, ok tt)
unfolding apply_dirty commit_checks
commit_checked dirty reads snapshot s u first checked unread reserved returns =
    rw (checked, unread, reserved, apply_dirty)
      λ i. ((apply_changes (entries dirty) first u).0, returns i)

-- A transaction that no other call comes between commits, if the store has revisions left for its changes,
-- and leaves exactly the rows that it has seen.
pub apply_dirty-alone :
    (s : MemoryStore) (t : Transaction)
    → Runs s t
    → IsRevised s
    → s.revisions.generation + mutation_count (entries t.dirty) s ≤ max_row_revision
    → (after : MemoryStore) × (apply_dirty t.dirty t.point_reads s.revisions.generation (begin s)
        ≡ (after, ok tt))
      × ((i j : String) → find i j after.collections ≡ find i j t.store.collections)
unfolding begin begin_transaction_snapshot
apply_dirty-alone s t runs revised room =
    let o = Runs-IsOverlay s runs in
    let checked =
      check_changes-Fits (entries t.dirty) (begin s) (entries-IsDistinct t.dirty o.nested) λ i j.
        rw (found-entries i j t.dirty o.nested) (
          Overlaid-fits (find i j s.collections) (find i j t.store.collections) (find i j t.dirty)
            (o.marked i j)) in
    let unread = check_reads-IsRevised (entries t.point_reads) (begin s) revised in
    let (reserved, got) = reserve-room (mutation_count (entries t.dirty) s) (begin s) room in
    let same =
      reserve-collections (mutation_count (entries t.dirty) s) (begin s) {u = reserved.0}
        {first = reserved.1} got in
    let (returns, at) = apply_changes-Overlay s.collections t reserved.1 reserved.0 o in
    (
      (apply_changes (entries t.dirty) reserved.1 reserved.0).0,
      commit_checked t.dirty t.point_reads s.revisions.generation (begin s) reserved.0 reserved.1
          checked unread (rw (mutation_count-collections (entries t.dirty) (begin s) s refl) got)
          returns,
      λ i j.
          at i j
          ∙ rw same (
              Overlaid-after (find i j s.collections) (find i j t.store.collections)
                (find i j t.dirty) (o.marked i j)),
    )
