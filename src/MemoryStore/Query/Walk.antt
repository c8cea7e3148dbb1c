-- ===== src/MemoryStore/Query/Walk.antt =====
-- src/adapters/store/memory.ts: the pages of a query, each from the cursor of the page before.
use active_ts.Prelude.{
  ℕ, zero, suc, ◌≤◌, ◌≡◌, refl, ◌∙◌, ap, sym, true, false, Option, none, some, List, [], ◌∷◌, ◌++◌,
  All, concat, length, Bool-cases, inl, inr, arith, ltb, le→leb, ltb→lt, &&-eq-true, ◌^◌,
}
use mathlib.Core.List.{
  append_assoc, append-nil, Perm, Pairwise, Mem, mem-append_right, mem-cons_self,
}
use mathlib.Core.List.Perm
use active_ts.Prelude.Text.{String}
use active_ts.Cursor.{CursorSort, Row, KeysetCursor}
use active_ts.Cursor.Pages.{IsSorted, cursor_at, after_cursor_lem}
use active_ts.Errors.{ok}
use active_ts.MemoryStore.Query.Sort.{sort_memory_rows}
use active_ts.MemoryStore.Query.Slices.{take-all}
use active_ts.MemoryStore.Query.Ids.{DifferIn, sort_with_stable_id-IsSorted}
use active_ts.MemoryStore.Query.Sorts.{sort_memory_rows-perm}
use active_ts.MemoryStore.Query.Page.{
  QueryPlan, QueryResult, sort_with_stable_id, copy_rows, last_row, behind_cursor, skip_offset,
  max_cursor_length, is_safe_limit, limit_page, query,
}
use active_ts.MemoryStore.Query.Ends.{copy_rows-take, Split, Split-page, cursor_sorts_equal_refl}

-- The pages that are read one after another, each from the cursor of the page before, until there is no more.
pub data Walks (encoded_length : KeysetCursor → ℕ) (plan : QueryPlan) (id_field : String)
    (rows : List Row) : Option KeysetCursor → List (List Row) → Type 0 where
  ends :
      {cursor : Option KeysetCursor} (result : QueryResult)
      → query encoded_length (record plan { cursor = cursor }) id_field rows ≡ ok result
      → result.more ≡ false
      → Walks encoded_length plan id_field rows cursor (result.list ∷ [])
  goes_on :
      {cursor : Option KeysetCursor} {pages : List (List Row)} (result : QueryResult)
      → query encoded_length (record plan { cursor = cursor }) id_field rows ≡ ok result
      → result.more ≡ true
      → Walks encoded_length plan id_field rows result.cursor pages
      → Walks encoded_length plan id_field rows cursor (result.list ∷ pages)

module _ (encoded_length : KeysetCursor → ℕ) (sort : List CursorSort) (id_field : String)
    (limit : ℕ) (rows : List Row) where
  -- The sort of the query, the rows in its order, and the plan of each page.
  abbrev pub stable : List CursorSort
  stable = sort_with_stable_id sort id_field

  abbrev pub sorted : List Row
  sorted = sort_memory_rows (sort_with_stable_id sort id_field) rows

  abbrev pub page_plan : Option KeysetCursor → QueryPlan
  page_plan cursor = record { sort = sort; cursor = cursor; offset = none; limit = some limit }

  pub query-behind :
      (cursor : Option KeysetCursor) (rest : List Row)
      → behind_cursor encoded_length cursor stable sorted ≡ ok rest
      → query encoded_length (page_plan cursor) id_field rows ≡ limit_page (some limit) stable rest
  unfolding query skip_offset
  query-behind cursor rest behind = rw behind refl

  module _ (safe : is_safe_limit limit ≡ true) where
    limit_page-last :
        (rest : List Row)
        → ltb limit (length rest) ≡ false
        → limit_page (some limit) stable rest
          ≡ ok (record { list = rest; cursor = none; more = false; count = length rest })
    unfolding limit_page
    limit_page-last rest fits =
        let all : copy_rows rest 0 limit ≡ rest =
          copy_rows-take rest limit ∙ take-all limit rest (ground (arith)) in
        rw (safe, fits, all) refl

    pub limit_page-more :
        (rest : List Row) (split : Split limit rest)
        → ltb limit (length rest) ≡ true
        → limit_page (some limit) stable rest
          ≡ ok (record {
            list = split.front ++ split.at ∷ [];
            cursor = some (cursor_at stable split.at);
            more = true;
            count = length (split.front ++ split.at ∷ []);
          })
    unfolding limit_page
    limit_page-more rest split longer =
        let final : last_row (split.front ++ split.at ∷ []) ≡ some split.at =
          rw split.page at split.final in
        rw (safe, longer, copy_rows-take rest limit, split.page, final) refl

    module _
        (short : (row : Row)
          → Mem row rows
          → encoded_length (cursor_at stable row) ≤ max_cursor_length)
        (in_order : IsSorted stable sorted) where
      -- The cursor at a row has the rows after it.
      behind_cursor-at :
          (front behind : List Row) (row : Row)
          → sorted ≡ front ++ row ∷ behind
          → behind_cursor encoded_length (some (cursor_at stable row)) stable sorted ≡ ok behind
      unfolding behind_cursor
      behind_cursor-at front behind row is =
          let member : Mem row rows =
            Perm.subset (sort_memory_rows-perm stable rows) row
              (rw (sym is) at (mem-append_right front (mem-cons_self {a = row} {l = behind}))) in
          rw (le→leb _ _ (short row member), cursor_sorts_equal_refl stable)
            (ap ok (rw is (after_cursor_lem stable row front behind (rw is at in_order))))

      -- The pages of the rows that are left.
      record Pages (cursor : Option KeysetCursor) (rest : List Row) : Type 0 where
        pages : List (List Row)
        walk : Walks encoded_length (page_plan none) id_field rows cursor pages
        whole : concat pages ≡ rest
        small : All (λ page. length page ≤ limit) pages

      last_page :
          (cursor : Option KeysetCursor) (rest : List Row)
          → behind_cursor encoded_length cursor stable sorted ≡ ok rest
          → ltb limit (length rest) ≡ false
          → Pages cursor rest
      last_page cursor rest behind fits = record {
        pages = rest ∷ [];
        walk = ends _ (query-behind cursor rest behind ∙ limit_page-last rest fits) refl;
        whole = append-nil rest;
        small = (ground (arith), tt);
      }

      walk_from :
          (fuel : ℕ) (cursor : Option KeysetCursor) (front rest : List Row)
          → length rest ≤ fuel
          → sorted ≡ front ++ rest
          → behind_cursor encoded_length cursor stable sorted ≡ ok rest
          → Pages cursor rest
      walk_from zero cursor front rest enough is behind =
          last_page cursor rest behind (ground (arith))
      walk_from (suc fuel) cursor front rest enough is behind =
          elim (Bool-cases (ltb limit (length rest))) [
            | inr fits ↦ last_page cursor rest behind fits
            | inl longer ↦
                let split =
                  Split-page limit rest
                    (ltb→lt 0 limit (&&-eq-true (ltb 0 limit) (ltb limit (2 ^ 53)) safe).0)
                    (ground (arith)) in
                let next : sorted ≡ (front ++ split.front) ++ split.at ∷ split.behind =
                  is
                  ∙ ap (λ rs. front ++ rs) split.whole
                  ∙ sym (append_assoc front split.front (split.at ∷ split.behind)) in
                let later =
                  walk_from fuel (some (cursor_at stable split.at))
                    ((front ++ split.front) ++ split.at ∷ []) split.behind
                    (omega (arith, split.fewer, enough))
                    (next ∙ sym (append_assoc (front ++ split.front) (split.at ∷ []) split.behind))
                    (behind_cursor-at (front ++ split.front) split.behind split.at next) in
                record {
                  pages = (split.front ++ split.at ∷ []) ∷ later.pages;
                  walk =
                      goes_on _
                        (query-behind cursor rest behind ∙ limit_page-more rest split longer) refl
                        later.walk;
                  whole =
                      ap (λ rs. (split.front ++ split.at ∷ []) ++ rs) later.whole
                      ∙ append_assoc split.front (split.at ∷ []) split.behind
                      ∙ sym split.whole;
                  small = (omega (arith, split.size), later.small);
                }
          ]

-- Reading a query with a limit page by page, each from the cursor of the page before, ends, if the cursors of
-- the rows are not too long and the ids of the rows differ; no page has more rows than the limit, and the
-- pages together have each of the rows that the filter leaves once, in the order of the sort.
pub query-Walks :
    (encoded_length : KeysetCursor → ℕ) (sort : List CursorSort) (id_field : String) (limit : ℕ)
    (rows : List Row)
    → is_safe_limit limit ≡ true
    → ((row : Row)
        → Mem row rows
        → encoded_length (cursor_at (sort_with_stable_id sort id_field) row) ≤ max_cursor_length)
    → Pairwise (DifferIn id_field) rows
    → (pages : List (List Row)) × Walks encoded_length
        (record { sort = sort; cursor = none; offset = none; limit = some limit })
        id_field
        rows
        none
        pages
      × All (λ page. length page ≤ limit) pages
      × Perm (concat pages) rows
      × IsSorted (sort_with_stable_id sort id_field) (concat pages)
unfolding behind_cursor
query-Walks encoded_length sort id_field limit rows safe short differ =
    let in_order = sort_with_stable_id-IsSorted sort id_field rows differ in
    let read =
      walk_from encoded_length sort id_field limit rows safe short in_order
        (length (sort_memory_rows (sort_with_stable_id sort id_field) rows)) none []
        (sort_memory_rows (sort_with_stable_id sort id_field) rows) (omega arith) refl refl in
    (
      read.pages,
      read.walk,
      read.small,
      rw read.whole (sort_memory_rows-perm (sort_with_stable_id sort id_field) rows),
      rw read.whole in_order,
    )
