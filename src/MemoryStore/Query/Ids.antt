-- ===== src/MemoryStore/Query/Ids.antt =====
-- src/core/cursor.ts: `sortWithStableId`, by which rows with different ids are never equal.
use active_ts.Prelude.{
  ◌≡◌, ◌≢◌, refl, ◌∙◌, ap, sym, true, List, [], ◌∷◌, ◌++◌, Bool-cases, inl, inr,
}
use mathlib.Core.List.{Pairwise, Pairwise-cons, mem-cons_self}
use mathlib.Core.List.Perm
use mathlib.Core.List.Pairwise
use active_ts.Prelude.Text.{String, str_eq, str_eq_iff, str_eq_refl}
use active_ts.Cursor.{
  Sign, less, same, greater, flip, compare_values, SortDirection, asc, desc, CursorSort, Row,
  directed, compare_rows_by_sort,
}
use active_ts.Cursor.Orders.{or_else-same}
use active_ts.Cursor.Rows.{compare_rows_by_sort-IsOrder}
use active_ts.Cursor.Pages.{IsSorted}
use active_ts.MemoryStore.Query.Sort.{at_most, sort_memory_rows}
use active_ts.MemoryStore.Query.Merges.{IsAscending}
use active_ts.MemoryStore.Query.Sorts.{
  compare_by, sort_memory_rows-perm, sort_memory_rows-IsAscending,
}
use active_ts.MemoryStore.Query.Page.{has_field, sort_with_stable_id}

has_field-append :
    (field : String) (sort : List CursorSort) (last : CursorSort)
    → last.field ≡ field
    → has_field field (sort ++ last ∷ []) ≡ true
unfolding has_field
has_field-append field [] last h = rw (h, str_eq_refl field) refl
has_field-append field (s ∷ sort) last h = elim (Bool-cases (str_eq s.field field)) [
  | inl here ↦ rw here refl
  | inr elsewhere ↦ rw elsewhere (has_field-append field sort last h)
]

has_field-sort_with_stable_id :
    (sort : List CursorSort) (id_field : String)
    → has_field id_field (sort_with_stable_id sort id_field) ≡ true
unfolding sort_with_stable_id
has_field-sort_with_stable_id sort id_field = elim (Bool-cases (has_field id_field sort)) [
  | inl there ↦ rw there there
  | inr absent ↦ rw absent (has_field-append id_field sort _ refl)
]

directed-same : (d : SortDirection) (s : Sign) → directed d s ≡ same → s ≡ same
directed-same asc s h = h
directed-same desc less h = absurd (cc h)
directed-same desc same h = refl
directed-same desc greater h = absurd (cc h)

-- Rows that are equal by a sort have equal values in its fields.
compare_rows_by_sort-same :
    (a b : Row) (sort : List CursorSort) (field : String)
    → has_field field sort ≡ true
    → compare_rows_by_sort a b sort ≡ same
    → compare_values (a field) (b field) ≡ same
unfolding has_field compare_rows_by_sort
compare_rows_by_sort-same a b [] field h g = absurd (cc h)
compare_rows_by_sort-same a b (s ∷ sort) field h g =
    let (here, rest) =
      or_else-same (directed s.direction (compare_values (a s.field) (b s.field)))
        (compare_rows_by_sort a b sort) g in
    elim (Bool-cases (str_eq s.field field)) [
      | inl is ↦ rw (sym ((str_eq_iff s.field field).0 is)) (directed-same s.direction _ here)
      | inr other ↦ compare_rows_by_sort-same a b sort field (rw other at h) rest
    ]

-- Rows whose ids differ.
abbrev pub DifferIn : String → Row → Row → Type 0
DifferIn id_field a b = compare_values (a id_field) (b id_field) ≢ same

module _ (sort : List CursorSort) where
  abbrev Differ : Row → Row → Type 0
  Differ a b = compare_rows_by_sort a b sort ≢ same

  at_most-less : (s : Sign) → at_most s ≡ true → s ≢ same → s ≡ less
  at_most-less less h g = refl
  at_most-less same h g = absurd (g refl)
  at_most-less greater h g = absurd (cc h)

  IsAscending-IsSorted :
      (rows : List Row)
      → IsAscending (compare_by sort) rows
      → Pairwise Differ rows
      → IsSorted sort rows
  IsAscending-IsSorted [] h g = tt
  IsAscending-IsSorted (a ∷ []) h g = tt
  IsAscending-IsSorted (a ∷ b ∷ rows) h g =
      let (first, rest) = Pairwise-cons.0 g in
      (
        at_most-less (compare_rows_by_sort a b sort) h.0.0 (first b mem-cons_self),
        IsAscending-IsSorted (b ∷ rows) h.1 rest,
      )

  Differ-symm : (a b : Row) → Differ a b → Differ b a
  Differ-symm a b h = λ e. h ((compare_rows_by_sort-IsOrder sort).reverses b a ∙ ap flip e)

  Differ-IsSorted :
      (rows : List Row) → Pairwise Differ rows → IsSorted sort (sort_memory_rows sort rows)
  Differ-IsSorted rows h =
      IsAscending-IsSorted (sort_memory_rows sort rows) (sort_memory_rows-IsAscending sort rows) (
        Perm.pairwise (λ a b. (hlevel)) Differ-symm (Perm.symm (sort_memory_rows-perm sort rows)) h)

-- Rows whose ids differ have one order by the sort of a query.
pub sort_with_stable_id-IsSorted :
    (sort : List CursorSort) (id_field : String) (rows : List Row)
    → Pairwise (DifferIn id_field) rows
    → IsSorted
        (sort_with_stable_id sort id_field)
        (sort_memory_rows (sort_with_stable_id sort id_field) rows)
sort_with_stable_id-IsSorted sort id_field rows h =
    Differ-IsSorted (sort_with_stable_id sort id_field) rows (
      Pairwise.imp
        (λ a b g e. g (
          compare_rows_by_sort-same a b (sort_with_stable_id sort id_field) id_field
            (has_field-sort_with_stable_id sort id_field) e))
        h)
