-- ===== src/MemoryStore/Query/LongCursors.antt =====
-- src/adapters/store/memory.ts and src/core/safe-keys.ts: cursors that `encodeCursor` makes and
-- `assertSafeCursor` refuses.
use active_ts.Prelude.{
  ℕ, ◌<◌, ◌^◌, ◌≡◌, refl, ◌∙◌, ap, sym, true, false, none, some, List, length, ltb, leb, lt→ltb,
  ltb→lt, &&-eq-true, arith,
}
use mathlib.Core.List.{Mem, mem-append_right, mem-cons_self}
use mathlib.Core.List.Perm
use active_ts.Prelude.Text.{String}
use active_ts.Cursor.{CursorSort, Row, KeysetCursor}
use active_ts.Cursor.Pages.{cursor_at}
use active_ts.Cursor.Rows.{compare_rows_by_sort-IsOrder}
use active_ts.Errors.{ok, throw, validation}
use active_ts.MemoryStore.Query.Sort.{sort_memory_rows}
use active_ts.MemoryStore.Query.Runs.{length-merge_sort}
use active_ts.MemoryStore.Query.Sorts.{
  compare_by, sort_memory_rows-perm, sort_memory_rows-merge_sort,
}
use active_ts.MemoryStore.Query.Page.{
  QueryResult, sort_with_stable_id, behind_cursor, max_cursor_length, is_safe_limit, query,
}
use active_ts.MemoryStore.Query.Ends.{Split-page}
use active_ts.MemoryStore.Query.Walk.{page_plan, query-behind, limit_page-more}

not_leb : (a b : ℕ) → b < a → leb a b ≡ false
not_leb a b h = ground arith

refuses :
    (encoded_length : KeysetCursor → ℕ) (cursor : KeysetCursor) (sort : List CursorSort)
    (id_field : String) (limit : ℕ) (rows : List Row)
    → max_cursor_length < encoded_length cursor
    → query encoded_length
        (page_plan encoded_length sort id_field limit rows (some cursor))
        id_field
        rows
      ≡ throw validation
unfolding query behind_cursor
refuses encoded_length cursor sort id_field limit rows long =
    rw (not_leb (encoded_length cursor) max_cursor_length long) refl

-- A query whose rows all have cursors that are longer than a cursor may be, and which has more rows than its
-- limit, returns a page that has more behind it, with a cursor for which the same query throws.
pub query-throw :
    (encoded_length : KeysetCursor → ℕ) (sort : List CursorSort) (id_field : String) (limit : ℕ)
    (rows : List Row)
    → is_safe_limit limit ≡ true
    → limit < length rows
    → ((row : Row)
        → Mem row rows
        → max_cursor_length < encoded_length (cursor_at (sort_with_stable_id sort id_field) row))
    → (result : QueryResult) × (query encoded_length
          (record { sort = sort; cursor = none; offset = none; limit = some limit })
          id_field
          rows
        ≡ ok result)
      × (result.more ≡ true)
      × (query encoded_length
            (record { sort = sort; cursor = result.cursor; offset = none; limit = some limit })
            id_field
            rows
          ≡ throw validation)
unfolding behind_cursor
query-throw encoded_length sort id_field limit rows safe fewer long =
    let stable = sort_with_stable_id sort id_field in
    let sorted = sort_memory_rows stable rows in
    let size : length sorted ≡ length rows =
      ap length (sort_memory_rows-merge_sort stable rows)
      ∙ length-merge_sort (compare_by stable) (compare_rows_by_sort-IsOrder stable) rows in
    let split =
      Split-page limit sorted
        (ltb→lt 0 limit (&&-eq-true (ltb 0 limit) (ltb limit (2 ^ 53)) safe).0)
        (omega (arith, size, fewer)) in
    let member : Mem split.at rows = Perm.subset (sort_memory_rows-perm stable rows) split.at (
      rw (sym split.whole) at
        (mem-append_right split.front (mem-cons_self {a = split.at} {l = split.behind}))) in
    (
      _,
      query-behind encoded_length sort id_field limit rows none sorted refl
          ∙ limit_page-more encoded_length sort id_field limit rows safe sorted split
              (lt→ltb _ _ (omega (arith, size, fewer))),
      refl,
      refuses encoded_length (cursor_at stable split.at) sort id_field limit rows
          (long split.at member),
    )
