-- ===== src/Tests/Cursors.antt =====
-- The theorems on the order of rows and on pages at concrete inputs.
use active_ts.Prelude.{◌≡◌, refl, ◌↔◌, if◌then◌else◌, List, [], ◌∷◌, ◌++◌}
use active_ts.Prelude.Int.{ℤ, pos, negsuc}
use active_ts.Prelude.Text.{String, str_eq}
use active_ts.Cursor.{
  Comparable, number, string, CursorSort, asc, desc, Row, after_cursor, compare_rows_by_sort,
  compare_values, compare_keys, cursor_values, compare_int, compare_nat, compare_units, utf16,
}
use active_ts.Cursor.Values.{
  read_keys, AreComparable, read_keys_iff, compare_read, shown, compare_read-shown,
}
use active_ts.DataValue.{DataValue, undefined, nonfinite}
use active_ts.Errors.{ok, throw, configuration, ◌>>=◌}
use active_ts.Cursor.Orders.{IsOrder}
use active_ts.Cursor.Rows.{compare_rows_by_sort-IsOrder, compare_keys-cursor_values}
use active_ts.Cursor.Pages.{IsSorted, cursor_at, after_cursor_lem}

abbrev sort : List CursorSort
sort = record { field = "score"; direction = desc } ∷ record { field = "id"; direction = asc } ∷ []

abbrev row : ℤ → String → Row
row score id field = if str_eq field "score" then number score else string id

abbrev rows_before : List Row
rows_before = row (pos 3) "b" ∷ row (pos 2) "a" ∷ []

abbrev last_row : Row
last_row = row (pos 2) "c"

abbrev rows_behind : List Row
rows_behind = row (negsuc 0) "a" ∷ []

rows-IsSorted : IsSorted sort (rows_before ++ last_row ∷ rows_behind)
unfolding compare_rows_by_sort compare_values compare_int compare_nat compare_units utf16
rows-IsSorted = (refl, (refl, (refl, tt)))

after_cursor_lem_example :
    after_cursor (cursor_at sort last_row) (rows_before ++ last_row ∷ rows_behind) ≡ rows_behind
after_cursor_lem_example = after_cursor_lem sort last_row rows_before rows_behind rows-IsSorted

compare_rows_by_sort-IsOrder_example :
    IsOrder (λ (a : Row) (b : Row). compare_rows_by_sort a b sort)
compare_rows_by_sort-IsOrder_example = compare_rows_by_sort-IsOrder sort

compare_keys-cursor_values_example :
    compare_keys sort (cursor_values last_row sort) (cursor_values (row (pos 2) "a") sort)
    ≡ compare_rows_by_sort last_row (row (pos 2) "a") sort
compare_keys-cursor_values_example = compare_keys-cursor_values last_row (row (pos 2) "a") sort

-- A stored row, whose score may be anything.
abbrev stored : DataValue → String → DataValue
stored score field = if str_eq field "score" then score else DataValue.text "a"

abbrev no_text : ℤ → String
no_text z = ""

read_keys_iff_example :
    (((keys : List Comparable) × (read_keys no_text (stored nonfinite) sort ≡ ok keys))
      ↔ AreComparable (stored nonfinite) sort)
    × ((read_keys no_text (stored nonfinite) sort ≡ throw configuration)
        ↔ ¬ AreComparable (stored nonfinite) sort)
read_keys_iff_example = read_keys_iff no_text (stored nonfinite) sort

compare_read-shown_example :
    let two = stored (DataValue.number (pos 2)) in
    (compare_read no_text two (stored undefined) sort
      ≡ ok (compare_rows_by_sort (shown no_text two) (shown no_text (stored undefined)) sort))
    × ((read_keys no_text two sort >>= λ xs.
          read_keys no_text (stored undefined) sort >>= λ ys. ok (compare_keys sort xs ys))
        ≡ ok (compare_rows_by_sort (shown no_text two) (shown no_text (stored undefined)) sort))
compare_read-shown_example =
    compare_read-shown no_text (stored (DataValue.number (pos 2))) (stored undefined) sort
      (tt, (tt, tt)) (tt, (tt, tt))
