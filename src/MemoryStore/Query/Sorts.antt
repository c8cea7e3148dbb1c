-- ===== src/MemoryStore/Query/Sorts.antt =====
-- src/adapters/store/memory.ts: `sortMemoryRows` sorts, whatever keys it has read off the rows.
use active_ts.Prelude.{
  ℕ, zero, suc, ◌*◌, ◌≡◌, refl, ◌∙◌, ap, sym, List, [], ◌∷◌, length, length-map, take, drop, map,
  Bool-cases, inl, inr, ltb,
}
use mathlib.Core.List.{Perm, map-append}
use active_ts.Cursor.{Sign, CursorSort, Row, compare_rows_by_sort}
use active_ts.Cursor.Rows.{compare_rows_by_sort-IsOrder, compare_keys-cursor_values}
use active_ts.MemoryStore.Query.Sort.{
  at_most, merge, merge_runs, merge_widths, merge_sort, entry_of, compare_entries, row_of,
  sort_memory_rows,
}
use active_ts.MemoryStore.Query.Merges.{IsAscending, merge_left, merge_right}
use active_ts.MemoryStore.Query.Stable.{equal_to, merge_sort-equal_to}
use active_ts.MemoryStore.Query.Runs.{merge_sort-IsAscending, merge_sort-perm}

module _ {A B : Type 0} (f : A → B) where
  map-take : (n : ℕ) (xs : List A) → take n (map f xs) ≡ map f (take n xs)
  map-take zero xs = refl
  map-take (suc n) [] = refl
  map-take (suc n) (x ∷ xs) = ap (λ ys. f x ∷ ys) (map-take n xs)

  map-drop : (n : ℕ) (xs : List A) → drop n (map f xs) ≡ map f (drop n xs)
  map-drop zero xs = refl
  map-drop (suc n) [] = refl
  map-drop (suc n) (x ∷ xs) = map-drop n xs

-- A sort of images is the image of a sort, if the images compare as the values do.
module _ {A B : Type 0} (f : A → B) (by_image : B → B → Sign) (compare : A → A → Sign)
    (agree : (a b : A) → by_image (f a) (f b) ≡ compare a b) where
  merge-map : (xs ys : List A) → merge by_image (map f xs) (map f ys) ≡ map f (merge compare xs ys)
  unfolding merge
  merge-map [] ys = refl
  merge-map (x ∷ xs) [] = refl
  merge-map (x ∷ xs) (y ∷ ys) = elim (Bool-cases (at_most (compare x y))) [
    | inl left ↦
        merge_left by_image (f x) (map f xs) (f y) (map f ys) (rw (agree x y) left)
        ∙ ap (λ zs. f x ∷ zs) (merge-map xs (y ∷ ys))
        ∙ ap (map f) (sym (merge_left compare x xs y ys left))
    | inr right ↦
        merge_right by_image (f x) (map f xs) (f y) (map f ys) (rw (agree x y) right)
        ∙ ap (λ zs. f y ∷ zs) (merge-map (x ∷ xs) ys)
        ∙ ap (map f) (sym (merge_right compare x xs y ys right))
  ]

  merge_runs-map :
      (fuel width : ℕ) (s : List A)
      → merge_runs by_image fuel width (map f s) ≡ map f (merge_runs compare fuel width s)
  unfolding merge_runs
  merge_runs-map zero width s = refl
  merge_runs-map (suc fuel) width [] = refl
  merge_runs-map (suc fuel) width (x ∷ xs) =
      let left = take width (x ∷ xs) in
      let right = take width (drop width (x ∷ xs)) in
      let rest = drop (width * 2) (x ∷ xs) in
      rw
        (
          map-take f width (x ∷ xs),
          map-drop f width (x ∷ xs),
          map-take f width (drop width (x ∷ xs)),
          map-drop f (width * 2) (x ∷ xs),
          merge-map left right,
          merge_runs-map fuel width rest,
          map-append f (merge compare left right) (merge_runs compare fuel width rest),
        )
        refl

  merge_widths-map :
      (fuel width : ℕ) (s : List A)
      → merge_widths by_image fuel width (map f s) ≡ map f (merge_widths compare fuel width s)
  unfolding merge_widths
  merge_widths-map zero width s = refl
  merge_widths-map (suc fuel) width s = elim (Bool-cases (ltb width (length s))) [
    | inl longer ↦
        rw (length-map f s, longer, merge_runs-map (length s) width s)
          (merge_widths-map fuel (width * 2) (merge_runs compare (length s) width s))
    | inr done ↦ rw (length-map f s, done) refl
  ]

  merge_sort-map : (s : List A) → merge_sort by_image (map f s) ≡ map f (merge_sort compare s)
  unfolding merge_sort
  merge_sort-map s = rw (length-map f s) (merge_widths-map (length s) 1 s)

abbrev pub compare_by : List CursorSort → Row → Row → Sign
compare_by sort a b = compare_rows_by_sort a b sort

rows_of_entries :
    (sort : List CursorSort) (rows : List Row) → map row_of (map (entry_of sort) rows) ≡ rows
rows_of_entries sort [] = refl
rows_of_entries sort (r ∷ rows) = ap (λ rs. r ∷ rs) (rows_of_entries sort rows)

-- Sorting by the keys that were read once is sorting by the comparison of rows.
pub sort_memory_rows-merge_sort :
    (sort : List CursorSort) (rows : List Row)
    → sort_memory_rows sort rows ≡ merge_sort (compare_by sort) rows
unfolding sort_memory_rows
sort_memory_rows-merge_sort sort rows =
    ap (map row_of) (
      merge_sort-map (entry_of sort) (compare_entries sort) (compare_by sort)
        (λ a b. compare_keys-cursor_values a b sort) rows)
    ∙ rows_of_entries sort (merge_sort (compare_by sort) rows)

pub sort_memory_rows-perm :
    (sort : List CursorSort) (rows : List Row) → Perm (sort_memory_rows sort rows) rows
sort_memory_rows-perm sort rows =
    rw (sort_memory_rows-merge_sort sort rows)
      (merge_sort-perm (compare_by sort) (compare_rows_by_sort-IsOrder sort) rows)

pub sort_memory_rows-IsAscending :
    (sort : List CursorSort) (rows : List Row)
    → IsAscending (compare_by sort) (sort_memory_rows sort rows)
sort_memory_rows-IsAscending sort rows =
    rw (sort_memory_rows-merge_sort sort rows)
      (merge_sort-IsAscending (compare_by sort) (compare_rows_by_sort-IsOrder sort) rows)

-- For every sort, the sorted rows are the rows that were given, none is greater by the sort than one behind it,
-- and the rows that compare as equal to any one row stand in the order in which they were given.
pub sort_memory_rows_lem :
    (sort : List CursorSort) (rows : List Row)
    → Perm (sort_memory_rows sort rows) rows
      × IsAscending (compare_by sort) (sort_memory_rows sort rows)
      × ((row : Row)
          → equal_to (compare_by sort) row (sort_memory_rows sort rows)
            ≡ equal_to (compare_by sort) row rows)
sort_memory_rows_lem sort rows = (
  sort_memory_rows-perm sort rows,
  sort_memory_rows-IsAscending sort rows,
  λ row.
      ap (equal_to (compare_by sort) row) (sort_memory_rows-merge_sort sort rows)
      ∙ merge_sort-equal_to (compare_by sort) (compare_rows_by_sort-IsOrder sort) row rows,
)
