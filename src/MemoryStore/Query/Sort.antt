-- ===== src/MemoryStore/Query/Sort.antt =====
-- src/adapters/store/memory.ts: `sortMemoryRows`, a merge sort from the bottom up. The arrays are lists, so a
-- merge takes its two runs and gives the part of the target that it writes.
use active_ts.Prelude.{
  ℕ, zero, suc, ◌*◌, Bool, true, false, List, [], ◌∷◌, ◌++◌, length, take, drop, ltb, if◌then◌else◌,
  map,
}
use active_ts.Cursor.{Sign, greater, CursorSort, Comparable, Row, cursor_values, compare_keys}

-- `order <= 0`
abbrev pub at_most : Sign → Bool
at_most greater = false
at_most _ = true

module _ {ℓ} {A : Type ℓ} (compare : A → A → Sign) where
  -- The innermost loop: of two values that compare as equal, the left one is first.
  unfoldable pub merge : List A → List A → List A
  merge [] ys = ys
  merge (x ∷ xs) [] = x ∷ xs
  merge (x ∷ xs) (y ∷ ys) = elim (at_most (compare x y)) [
    | true ↦ x ∷ merge xs (y ∷ ys)
    | false ↦ y ∷ merge (x ∷ xs) ys
  ]

  -- The loop over `start`, which merges each two runs; it has no more rounds than there are values.
  unfoldable pub merge_runs : ℕ → ℕ → List A → List A
  unfolding merge
  merge_runs zero width source = source
  merge_runs (suc fuel) width [] = []
  merge_runs (suc fuel) width (x ∷ xs) =
      merge (take width (x ∷ xs)) (take width (drop width (x ∷ xs)))
      ++ merge_runs fuel width (drop (width * 2) (x ∷ xs))

  -- The loop over `width`, which doubles, so that it has no more rounds than there are values.
  unfoldable pub merge_widths : ℕ → ℕ → List A → List A
  unfolding merge_runs
  merge_widths zero width source = source
  merge_widths (suc fuel) width source =
      let next : List A = merge_widths fuel (width * 2) (merge_runs (length source) width source) in
      if ltb width (length source) then next else source

  unfoldable pub merge_sort : List A → List A
  unfolding merge_widths
  merge_sort source = merge_widths (length source) 1 source

-- A row with its keys.
abbrev pub SortEntry : Type 0
SortEntry = Row × List Comparable

abbrev pub entry_of : List CursorSort → Row → SortEntry
entry_of sort row = (row, cursor_values row sort)

abbrev pub compare_entries : List CursorSort → SortEntry → SortEntry → Sign
compare_entries sort a b = compare_keys sort a.1 b.1

abbrev pub row_of : SortEntry → Row
row_of entry = entry.0

-- `sortMemoryRows`
unfoldable pub sort_memory_rows : List CursorSort → List Row → List Row
unfolding merge_sort
sort_memory_rows sort rows =
    map row_of (merge_sort (compare_entries sort) (map (entry_of sort) rows))
