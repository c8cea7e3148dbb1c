-- ===== src/Cursor/Pages.antt =====
-- src/core/cursor.ts and the page of src/adapters/store/memory.ts: what a cursor selects.
use active_ts.Prelude.{◌≡◌, refl, ◌∙◌, ap, List, [], ◌∷◌, ◌++◌, All}
use active_ts.Cursor.{
  Sign, less, same, greater, flip, or_else, compare_values, CursorSort, directed, Row,
  cursor_values, compare_rows_by_sort, KeysetCursor, compare_row_to_values, compare_row_to_cursor,
  after_cursor,
}
use active_ts.Cursor.Rows.{compare_rows_by_sort-IsOrder}

-- The cursor that stands at a row.
abbrev pub cursor_at : List CursorSort → Row → KeysetCursor
cursor_at sort row = record { sort = sort; values = cursor_values row sort }

compare_row_to_cursor-cursor_at :
    (x r : Row) (sort : List CursorSort)
    → compare_row_to_cursor x (cursor_at sort r) ≡ compare_rows_by_sort x r sort
unfolding compare_row_to_cursor compare_row_to_values cursor_values compare_rows_by_sort
compare_row_to_cursor-cursor_at x r [] = refl
compare_row_to_cursor-cursor_at x r (s ∷ ss) =
    ap (or_else (directed s.direction (compare_values (x s.field) (r s.field))))
      (compare_row_to_cursor-cursor_at x r ss)

module _ (sort : List CursorSort) where
  -- Each row comes before the next.
  abbrev pub IsSorted : List Row → Type 0
  IsSorted [] = Unit
  IsSorted (r ∷ []) = Unit
  IsSorted (r ∷ q ∷ rs) = (compare_rows_by_sort r q sort ≡ less) × IsSorted (q ∷ rs)

  abbrev IsBefore : Row → Row → Type 0
  IsBefore r q = compare_rows_by_sort r q sort ≡ less

  IsSorted-tail : (r : Row) (rs : List Row) → IsSorted (r ∷ rs) → IsSorted rs
  IsSorted-tail r [] h = tt
  IsSorted-tail r (q ∷ rs) (h, rest) = rest

  All-chain : (r q : Row) (rs : List Row) → IsBefore r q → All (IsBefore q) rs → All (IsBefore r) rs
  All-chain r q [] h all = tt
  All-chain r q (p ∷ rs) h (first, rest) =
      ((compare_rows_by_sort-IsOrder sort).chains r q p h first, All-chain r q rs h rest)

  IsSorted-All : (r : Row) (rs : List Row) → IsSorted (r ∷ rs) → All (IsBefore r) rs
  IsSorted-All r [] h = tt
  IsSorted-All r (q ∷ rs) (h, rest) = (h, All-chain r q rs h (IsSorted-All q rs rest))

  All-middle :
      (x : Row) (xs : List Row) (r : Row) (ys : List Row)
      → All (IsBefore x) (xs ++ r ∷ ys)
      → IsBefore x r
  All-middle x [] r ys (h, rest) = h
  All-middle x (z ∷ xs) r ys (h, rest) = All-middle x xs r ys rest

  flip_fixed : (s : Sign) → s ≡ flip s → s ≡ same
  flip_fixed less h = absurd (cc h)
  flip_fixed same h = refl
  flip_fixed greater h = absurd (cc h)

  module _ (r : Row) where
    after_cursor_behind :
        (x : Row) (rows : List Row) (s : Sign)
        → compare_rows_by_sort x r sort ≡ s
        → (s ≡ greater → ⊥)
        → after_cursor (cursor_at sort r) (x ∷ rows) ≡ after_cursor (cursor_at sort r) rows
    unfolding after_cursor
    after_cursor_behind x rows less h not_after =
        rw (compare_row_to_cursor-cursor_at x r sort ∙ h, after_cursor) refl
    after_cursor_behind x rows same h not_after =
        rw (compare_row_to_cursor-cursor_at x r sort ∙ h, after_cursor) refl
    after_cursor_behind x rows greater h not_after = absurd (not_after refl)

    after_cursor_ahead :
        (ys : List Row) → All (IsBefore r) ys → after_cursor (cursor_at sort r) ys ≡ ys
    unfolding after_cursor
    after_cursor_ahead [] h = refl
    after_cursor_ahead (y ∷ ys) (h, rest) =
        let bigger : compare_rows_by_sort y r sort ≡ greater =
          (compare_rows_by_sort-IsOrder sort).reverses r y ∙ ap flip h in
        rw (compare_row_to_cursor-cursor_at y r sort ∙ bigger, after_cursor)
          (ap (λ zs. y ∷ zs) (after_cursor_ahead ys rest))

    -- If each row of a list comes before the next by the sort, the cursor at any of them selects exactly the
    -- rows behind it, in their order: pages neither repeat a row nor skip one.
    pub after_cursor_lem :
        (xs ys : List Row)
        → IsSorted (xs ++ r ∷ ys)
        → after_cursor (cursor_at sort r) (xs ++ r ∷ ys) ≡ ys
    after_cursor_lem [] ys h =
        after_cursor_behind r ys same
          (flip_fixed (compare_rows_by_sort r r sort)
            ((compare_rows_by_sort-IsOrder sort).reverses r r))
          (λ e. absurd (cc e))
        ∙ after_cursor_ahead ys (IsSorted-All r ys h)
    after_cursor_lem (x ∷ xs) ys h =
        after_cursor_behind x (xs ++ r ∷ ys) less
          (All-middle x xs r ys (IsSorted-All x (xs ++ r ∷ ys) h)) (λ e. absurd (cc e))
        ∙ after_cursor_lem xs ys (IsSorted-tail x (xs ++ r ∷ ys) h)
