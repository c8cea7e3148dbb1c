-- ===== src/MemoryStore/Isolation/Evolution.antt =====
-- src/adapters/store/memory.ts: what other calls, and other transactions, may do to the store while a
-- transaction runs.
use active_ts.Prelude.{ℕ, ◌≤◌, ◌≡◌, refl, Option, List, inl, inr, arith}
use active_ts.Prelude.Text.{String}
use active_ts.Prelude.Nested.{Nested, IsNested}
use active_ts.SafeKeys.{EntityId}
use active_ts.DataValue.{DataValue}
use active_ts.Errors.{ok}
use active_ts.MemoryStore.Revisions.{Revisions, snapshot_count}
use active_ts.MemoryStore.Rows.{MemoryStore, Model, create, update, delete}
use active_ts.MemoryStore.Batches.{reset_all, seed, reset}
use active_ts.MemoryStore.Commit.{DirtyChange, apply_dirty}
use active_ts.MemoryStore.Transaction.{begin, finish}
use active_ts.MemoryStore.Isolation.Compaction.{
  end_snapshot-IsActive, set_snapshot-IsActive, set_snapshot-begun,
  compact_row_revision_tombstones-later, compact_row_revision_tombstones-snapshots,
}
use active_ts.MemoryStore.Revisions.{
  end_snapshot, release_transaction_snapshot, begin_transaction_snapshot,
}
use active_ts.MemoryStore.Isolation.Inversion.{
  create-Sets, update-Sets, delete-Unsets, seed-SetsRows,
}
use active_ts.MemoryStore.Isolation.Writes.{Sets-Tracks, Unsets-Tracks, SetsRows-Tracks}
use active_ts.MemoryStore.Isolation.Resets.{reset-Tracks}
use active_ts.MemoryStore.Isolation.ResetAll.{reset_all-Tracks}
use active_ts.MemoryStore.Isolation.Applies.{apply_dirty-Tracks}
use active_ts.MemoryStore.Isolation.Tracking.{Tracks}

-- The stores that calls of others can make of a store, in any number and order, while a transaction with
-- the snapshot runs. Another transaction commits and then releases its snapshot; if that is the same one,
-- both hold it.
pub data Evolves (s : ℕ) (before : MemoryStore) : MemoryStore → Type 0 where
  still : Evolves s before before
  created :
      {t u : MemoryStore} (model : Model) (id : EntityId) (row : DataValue)
      → Evolves s before t
      → create model id row t ≡ ok u
      → Evolves s before u
  updated :
      {t u : MemoryStore} (model : Model) (id : EntityId) (row : DataValue) (expected : Option ℕ)
      → Evolves s before t
      → update model id row expected t ≡ ok u
      → Evolves s before u
  deleted :
      {t u : MemoryStore} (model : Model) (id : EntityId) (expected : Option ℕ)
      → Evolves s before t
      → delete model id expected t ≡ ok u
      → Evolves s before u
  seeded :
      {t u : MemoryStore} (model : Model) (rows : List DataValue)
      → Evolves s before t
      → seed model rows t ≡ ok u
      → Evolves s before u
  was_reset :
      {t u : MemoryStore} (name : String)
      → Evolves s before t
      → reset name t ≡ ok u
      → Evolves s before u
  were_reset : {t u : MemoryStore} → Evolves s before t → reset_all t ≡ ok u → Evolves s before u
  begun : {t : MemoryStore} → Evolves s before t → Evolves s before (begin t)
  -- Committed, or refused.
  committed :
      {t : MemoryStore} (dirty : Nested DirtyChange) (reads : Nested (Unit {0})) (snapshot : ℕ)
      → IsNested dirty
      → Evolves s before t
      → Evolves s before (apply_dirty dirty reads snapshot t).0
  ended :
      {t : MemoryStore} (snapshot : ℕ)
      → Evolves s before t
      → (snapshot ≡ s → 2 ≤ snapshot_count s t.revisions.snapshots)
      → Evolves s before (finish snapshot t)

finish-Tracks :
    (s : ℕ) (rows : Nested DataValue) (snapshot : ℕ) (t : MemoryStore)
    → (snapshot ≡ s → 2 ≤ snapshot_count s t.revisions.snapshots)
    → Tracks s rows t
    → Tracks s rows (finish snapshot t)
unfolding finish release_transaction_snapshot
finish-Tracks s rows snapshot t shared tracks =
    let ended : Revisions = record t.revisions {
      snapshots = end_snapshot snapshot t.revisions.snapshots;
    } in
    let active = end_snapshot-IsActive s snapshot t.revisions.snapshots shared tracks.active in
    let (snapshots, generation) = compact_row_revision_tombstones-snapshots ended in
    record {
      active = rw snapshots active;
      bound = rw generation tracks.bound;
      seen = λ i j. elim (tracks.seen i j) [
        | inl kept ↦ inl kept
        | inr (r, at, later) ↦
            inr (r, compact_row_revision_tombstones-later s ended i j r active later at, later)
      ];
    }

begin-Tracks :
    (s : ℕ) (rows : Nested DataValue) (t : MemoryStore) → Tracks s rows t → Tracks s rows (begin t)
unfolding begin begin_transaction_snapshot
begin-Tracks s rows t tracks = record {
  active = set_snapshot-IsActive s t.revisions.generation t.revisions.snapshots tracks.active;
  bound = tracks.bound;
  seen = tracks.seen;
}

pub Evolves-Tracks :
    (s : ℕ) (rows : Nested DataValue) {before t : MemoryStore}
    → Evolves s before t
    → Tracks s rows before
    → Tracks s rows t
Evolves-Tracks s rows still tracks = tracks
Evolves-Tracks s rows (created model id row e h) tracks =
    Sets-Tracks s rows (create-Sets model id _ row h) (Evolves-Tracks s rows e tracks)
Evolves-Tracks s rows (updated model id row expected e h) tracks =
    Sets-Tracks s rows (update-Sets model id _ row expected h) (Evolves-Tracks s rows e tracks)
Evolves-Tracks s rows (deleted model id expected e h) tracks =
    Unsets-Tracks s rows (delete-Unsets model id expected _ h) (Evolves-Tracks s rows e tracks)
Evolves-Tracks s rows (seeded model seeds e h) tracks =
    SetsRows-Tracks s rows (seed-SetsRows model seeds _ h) (Evolves-Tracks s rows e tracks)
Evolves-Tracks s rows (was_reset name e h) tracks =
    reset-Tracks s rows name _ h (Evolves-Tracks s rows e tracks)
Evolves-Tracks s rows (were_reset e h) tracks =
    reset_all-Tracks s rows _ h (Evolves-Tracks s rows e tracks)
Evolves-Tracks s rows (begun e) tracks = begin-Tracks s rows _ (Evolves-Tracks s rows e tracks)
Evolves-Tracks s rows (committed dirty reads snapshot nested e) tracks =
    apply_dirty-Tracks s rows dirty reads snapshot _ (Evolves-Tracks s rows e tracks)
Evolves-Tracks s rows (ended snapshot e shared) tracks =
    finish-Tracks s rows snapshot _ shared (Evolves-Tracks s rows e tracks)

-- At the beginning of a transaction nothing has changed since its snapshot.
pub Tracks-begin : (t : MemoryStore) → Tracks t.revisions.generation t.collections (begin t)
unfolding begin begin_transaction_snapshot
Tracks-begin t = record {
  active = set_snapshot-begun t.revisions.generation t.revisions.snapshots;
  bound = omega arith;
  seen = λ i j. inl refl;
}
