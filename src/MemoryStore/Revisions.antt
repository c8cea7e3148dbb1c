-- ===== src/MemoryStore/Revisions.antt =====
-- src/adapters/store/memory.ts: the revisions of rows, and the snapshots of running transactions.
use active_ts.Prelude.{
  ℕ, ◌+◌, ◌-◌, ◌^◌, Bool, true, false, ◌&&◌, Option, none, some, List, [], ◌∷◌, ltb, leb, ◌==◌,
  if◌then◌else◌,
}
use active_ts.Prelude.Text.{String}
use active_ts.Prelude.Nested.{Nested, find, put, drop_tidy}
use active_ts.Errors.{Result, ok, configuration, guard, ◌>>◌}

-- `rowRevisions`, `rowRevisionTombstones`, `activeTransactionSnapshots` with the number of transactions
-- of each snapshot, and `rowRevisionGeneration`.
pub record Revisions : Type 0 where
  pub of_rows : Nested ℕ
  pub tombstones : Nested ℕ
  pub snapshots : List (ℕ × ℕ)
  pub generation : ℕ

abbrev pub no_revisions : Revisions
no_revisions = record { of_rows = []; tombstones = []; snapshots = []; generation = 0 }

-- MAX_ROW_REVISION
abbrev pub max_row_revision : ℕ
max_row_revision = 2 ^ 53 - 1

-- `reserveRowRevisions`: the first of the reserved revisions.
unfoldable pub reserve_row_revisions : ℕ → Revisions → Result (Revisions × ℕ)
reserve_row_revisions count r = do
  guard (ltb 0 count && leb (r.generation + count) max_row_revision) configuration
  ok (record r { generation = r.generation + count }, r.generation + 1)

-- `hasSnapshotBefore`
unfoldable pub has_snapshot_before : ℕ → List (ℕ × ℕ) → Bool
has_snapshot_before revision [] = false
has_snapshot_before revision ((snapshot, count) ∷ rest) =
    if ltb snapshot revision then true else has_snapshot_before revision rest

-- `recordRowRevision`
unfoldable pub record_row_revision : String → String → ℕ → Bool → Revisions → Revisions
unfolding has_snapshot_before
record_row_revision name id revision row_exists r =
    let revisions = put name id revision r.of_rows in
    if row_exists
    then record r { of_rows = revisions; tombstones = drop_tidy name id r.tombstones }
    else if has_snapshot_before revision r.snapshots
    then record r { of_rows = revisions; tombstones = put name id revision r.tombstones }
    else record r {
      of_rows = drop_tidy name id revisions;
      tombstones = drop_tidy name id r.tombstones;
    }

-- How many transactions have the snapshot.
unfoldable pub snapshot_count : ℕ → List (ℕ × ℕ) → ℕ
snapshot_count s [] = 0
snapshot_count s ((t, count) ∷ rest) = if t == s then count else snapshot_count s rest

unfoldable pub set_snapshot : ℕ → ℕ → List (ℕ × ℕ) → List (ℕ × ℕ)
set_snapshot s n [] = (s, n) ∷ []
set_snapshot s n ((t, count) ∷ rest) =
    if t == s then (t, n) ∷ rest else (t, count) ∷ set_snapshot s n rest

-- A snapshot stands once, so what goes is its one entry.
unfoldable pub delete_snapshot : ℕ → List (ℕ × ℕ) → List (ℕ × ℕ)
delete_snapshot s [] = []
delete_snapshot s ((t, count) ∷ rest) =
    let others : List (ℕ × ℕ) = delete_snapshot s rest in
    if t == s then others else (t, count) ∷ others

-- `beginTransactionSnapshot`: the snapshot is the generation.
unfoldable pub begin_transaction_snapshot : Revisions → Revisions
unfolding snapshot_count set_snapshot
begin_transaction_snapshot r = record r {
  snapshots = set_snapshot r.generation (snapshot_count r.generation r.snapshots + 1) r.snapshots;
}

abbrev pub min_snapshot : ℕ → Option ℕ → Option ℕ
min_snapshot s none = some s
min_snapshot s (some t) = if ltb s t then some s else some t

unfoldable pub oldest_snapshot : List (ℕ × ℕ) → Option ℕ
oldest_snapshot [] = none
oldest_snapshot ((s, count) ∷ rest) = min_snapshot s (oldest_snapshot rest)

-- No running transaction can ask for the tombstone.
abbrev pub is_obsolete : Option ℕ → ℕ → Bool
is_obsolete none revision = true
is_obsolete (some oldest) revision = leb revision oldest

abbrev pub is_revision : ℕ → Option ℕ → Bool
is_revision revision none = false
is_revision revision (some r) = r == revision

-- The revision of the row goes with its tombstone, unless the row was written since.
unfoldable pub forget_revision : String → String → ℕ → Nested ℕ → Nested ℕ
forget_revision name id revision rows =
    if is_revision revision (find name id rows) then drop_tidy name id rows else rows

-- The loop over the tombstones of a model: those that stay, and the revisions of rows.
unfoldable pub compact_entries :
    Option ℕ → String → List (String × ℕ) → Nested ℕ → List (String × ℕ) × Nested ℕ
unfolding forget_revision
compact_entries oldest name [] rows = ([], rows)
compact_entries oldest name ((id, revision) ∷ ts) rows = elim (is_obsolete oldest revision) [
  | true ↦ compact_entries oldest name ts (forget_revision name id revision rows)
  | false ↦ let rest = compact_entries oldest name ts rows in ((id, revision) ∷ rest.0, rest.1)
]

abbrev keep_nonempty : String → List (String × ℕ) → Nested ℕ → Nested ℕ
keep_nonempty name [] rest = rest
keep_nonempty name (t ∷ ts) rest = (name, t ∷ ts) ∷ rest

-- `compactRowRevisionTombstones`
unfoldable pub compact_names : Option ℕ → Nested ℕ → Nested ℕ → Nested ℕ × Nested ℕ
unfolding compact_entries
compact_names oldest [] rows = ([], rows)
compact_names oldest ((name, ts) ∷ more) rows =
    let here = compact_entries oldest name ts rows in
    let rest = compact_names oldest more here.1 in (keep_nonempty name here.0 rest.0, rest.1)

unfoldable pub compact_row_revision_tombstones : Revisions → Revisions
unfolding oldest_snapshot compact_names
compact_row_revision_tombstones r =
    let compacted = compact_names (oldest_snapshot r.snapshots) r.tombstones r.of_rows in
    record r { tombstones = compacted.0; of_rows = compacted.1 }

-- A snapshot after one of its transactions has ended.
unfoldable pub end_snapshot : ℕ → List (ℕ × ℕ) → List (ℕ × ℕ)
unfolding snapshot_count set_snapshot delete_snapshot
end_snapshot s snapshots =
    let count = snapshot_count s snapshots in
    if count == 1
    then delete_snapshot s snapshots
    else if count == 0
    then snapshots
    else set_snapshot s (count - 1) snapshots

-- `releaseTransactionSnapshot`
unfoldable pub release_transaction_snapshot : ℕ → Revisions → Revisions
unfolding end_snapshot compact_row_revision_tombstones
release_transaction_snapshot s r =
    compact_row_revision_tombstones (record r { snapshots = end_snapshot s r.snapshots })
