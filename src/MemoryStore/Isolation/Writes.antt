-- ===== src/MemoryStore/Isolation/Writes.antt =====
-- src/adapters/store/memory.ts: every write keeps track of the rows that it changes.
use active_ts.Prelude.{ℕ, ◌≡◌, sym, ◌⊎◌, inl, inr, length}
use active_ts.Prelude.Nested.{Nested}
use active_ts.DataValue.{DataValue}
use active_ts.MemoryStore.Rows.{MemoryStore}
use active_ts.MemoryStore.Isolation.Tracking.{
  Tracks, set_row-Tracks, unset_row-Tracks, reserve_one-Tracks, reserve-Tracks, set_rows-Tracks,
}
use active_ts.MemoryStore.Isolation.Inversion.{Sets, Unsets, SetsRows}

module _ (s : ℕ) (rows : Nested DataValue) {t u : MemoryStore} where
  pub Sets-Tracks : Sets t u → Tracks s rows t → Tracks s rows u
  Sets-Tracks set tracks =
      let (tracked, later) = reserve_one-Tracks s rows t tracks set.got in
      rw (sym set.is)
        (set_row-Tracks s rows set.name set.key set.row set.reserved.1 set.reserved.0 later tracked)

  pub Unsets-Tracks : (t ≡ u) ⊎ Unsets t u → Tracks s rows t → Tracks s rows u
  Unsets-Tracks (inl same) tracks = rw (sym same) tracks
  Unsets-Tracks (inr unset) tracks =
      let (tracked, later) = reserve_one-Tracks s rows t tracks unset.got in
      rw (sym unset.is) (
        unset_row-Tracks s rows unset.name unset.key unset.reserved.1 unset.reserved.0 later
          tracked)

  pub SetsRows-Tracks : SetsRows t u → Tracks s rows t → Tracks s rows u
  SetsRows-Tracks set tracks =
      let (tracked, _, later) = reserve-Tracks s rows (length set.rows) t tracks set.got in
      rw (sym set.is)
        (set_rows-Tracks s rows set.name set.rows set.reserved.1 set.reserved.0 later tracked)
