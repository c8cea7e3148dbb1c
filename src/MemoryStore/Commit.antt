-- ===== src/MemoryStore/Commit.antt =====
-- src/adapters/store/memory.ts: `applyDirty`, which commits a transaction.
use active_ts.Prelude.{
  ℕ, ◌+◌, Bool, true, not, Option, none, some, List, [], ◌∷◌, ◌++◌, ltb, if◌then◌else◌,
}
use active_ts.Prelude.Text.{String}
use active_ts.Prelude.Nested.{Nested, find}
use active_ts.DataValue.{DataValue, clone_safe_data}
use active_ts.Errors.{Result, ok, throw, conflict, not_found, guard, ◌>>=◌, ◌>>◌}
use active_ts.MemoryStore.Rows.{
  MemoryStore, is_some, check_version, check_delete, set_row, unset_row,
}
use active_ts.MemoryStore.Batches.{reserve}

-- What a transaction does to a row; the versions are those that the row must have at the commit.
pub data DirtyChange : Type 0 where
  creates : DataValue → DirtyChange
  updates : DataValue → Option ℕ → DirtyChange
  deletes : Option ℕ → DirtyChange

-- A place and what is there, in the order of the loops over a `Map` of `Map`s.
abbrev pub Entry {ℓ} : Type ℓ → Type ℓ
Entry V = String × String × V

unfoldable pub inner_entries {ℓ} : {V : Type ℓ} → String → List (String × V) → List (Entry V)
inner_entries name [] = []
inner_entries name ((key, v) ∷ inner) = (name, key, v) ∷ inner_entries name inner

unfoldable pub entries {ℓ} : {V : Type ℓ} → Nested V → List (Entry V)
unfolding inner_entries
entries [] = []
entries ((name, inner) ∷ m) = inner_entries name inner ++ entries m

-- The checks on a change.
unfoldable pub check_change : DirtyChange → Option DataValue → Result (Unit {0})
check_change (creates v) row = guard (not (is_some row)) conflict
check_change (updates v expected) row = do guard (is_some row) not_found; check_version row expected
check_change (deletes expected) row = check_delete row expected

unfoldable pub check_changes : List (Entry DirtyChange) → MemoryStore → Result (Unit {0})
unfolding check_change
check_changes [] s = ok tt
check_changes ((name, key, change) ∷ rest) s = do
  check_change change (find name key s.collections)
  check_changes rest s

abbrev pub is_unchanged : ℕ → Option ℕ → Bool
is_unchanged snapshot none = true
is_unchanged snapshot (some revision) = not (ltb snapshot revision)

-- The rows that were read by their ids must not have a revision after the snapshot.
unfoldable pub check_reads : ℕ → List (Entry (Unit {0})) → MemoryStore → Result (Unit {0})
check_reads snapshot [] s = ok tt
check_reads snapshot ((name, key, read) ∷ rest) s = do
  guard (is_unchanged snapshot (find name key s.revisions.of_rows)) conflict
  check_reads snapshot rest s

-- Whether the change writes: all do but the deletion of a row that is not there.
abbrev pub mutates : DirtyChange → Option DataValue → Bool
mutates (creates v) row = true
mutates (updates v expected) row = true
mutates (deletes expected) row = is_some row

unfoldable pub mutation_count : List (Entry DirtyChange) → MemoryStore → ℕ
mutation_count [] s = 0
mutation_count ((name, key, change) ∷ rest) s =
    (if mutates change (find name key s.collections) then 1 else 0) + mutation_count rest s

-- A change at a revision; the next change gets the revision that is returned.
unfoldable pub write_value :
    String → String → DataValue → ℕ → MemoryStore → Result (MemoryStore × ℕ)
unfolding set_row
write_value name key v revision s = do
  row ← clone_safe_data v
  ok (set_row name key row revision s, revision + 1)

unfoldable pub delete_value :
    String → String → Option DataValue → ℕ → MemoryStore → Result (MemoryStore × ℕ)
unfolding unset_row
delete_value name key none revision s = ok (s, revision)
delete_value name key (some row) revision s = ok (unset_row name key revision s, revision + 1)

unfoldable pub apply_change :
    String → String → DirtyChange → ℕ → MemoryStore → Result (MemoryStore × ℕ)
unfolding write_value delete_value
apply_change name key (creates v) revision s = write_value name key v revision s
apply_change name key (updates v expected) revision s = write_value name key v revision s
apply_change name key (deletes expected) revision s =
    delete_value name key (find name key s.collections) revision s

-- The last loop. Behind an error, the store is as the changes before it left it.
unfoldable pub apply_changes :
    List (Entry DirtyChange) → ℕ → MemoryStore → MemoryStore × Result (Unit {0})
unfolding apply_change
apply_changes [] revision s = (s, ok tt)
apply_changes ((name, key, change) ∷ rest) revision s =
    elim (apply_change name key change revision s) [
      | throw x ↦ (s, throw x)
      | ok applied ↦ apply_changes rest applied.1 applied.0
    ]

unfoldable pub commit_checks :
    Nested DirtyChange → Nested (Unit {0}) → ℕ → MemoryStore → Result (MemoryStore × ℕ)
unfolding check_changes check_reads mutation_count entries
commit_checks dirty reads snapshot s = do
  check_changes (entries dirty) s
  check_reads snapshot (entries reads) s
  reserve (mutation_count (entries dirty) s) s

-- `applyDirty`
unfoldable pub apply_dirty :
    Nested DirtyChange → Nested (Unit {0}) → ℕ → MemoryStore → MemoryStore × Result (Unit {0})
unfolding apply_changes commit_checks
apply_dirty dirty reads snapshot s = elim (commit_checks dirty reads snapshot s) [
  | throw x ↦ (s, throw x)
  | ok reserved ↦ apply_changes (entries dirty) reserved.1 reserved.0
]
