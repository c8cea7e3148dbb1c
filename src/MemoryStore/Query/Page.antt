-- ===== src/MemoryStore/Query/Page.antt =====
-- src/adapters/store/memory.ts: `query`, over the rows that the filter leaves. A cursor is its payload, and the
-- fields that are selected are all. The sort of a cursor is checked by `cursorSortsEqual` of
-- src/core/cursor.ts.
use active_ts.Prelude.{
  ℕ, zero, suc, ◌+◌, ◌-◌, Bool, true, false, ◌&&◌, Option, none, some, List, [], ◌∷◌, ◌++◌, length,
  get_elem?, ltb, leb, ◌^◌, if◌then◌else◌,
}
use active_ts.Prelude.Text.{String, str_eq}
use active_ts.Cursor.{
  SortDirection, asc, desc, CursorSort, Row, KeysetCursor, cursor_values, after_cursor,
}
use active_ts.Errors.{Result, ok, configuration, validation, guard, ◌>>=◌, ◌>>◌}
use active_ts.MemoryStore.Query.Sort.{sort_memory_rows}

pub record QueryPlan : Type 0 where
  pub sort : List CursorSort
  pub cursor : Option KeysetCursor
  pub offset : Option ℕ
  pub limit : Option ℕ

pub record QueryResult : Type 0 where
  pub list : List Row
  pub cursor : Option KeysetCursor
  pub more : Bool
  pub count : ℕ

unfoldable pub has_field : String → List CursorSort → Bool
has_field field [] = false
has_field field (s ∷ sort) = if str_eq s.field field then true else has_field field sort

-- `sortWithStableId`
unfoldable pub sort_with_stable_id : List CursorSort → String → List CursorSort
unfolding has_field
sort_with_stable_id sort id_field =
    if has_field id_field sort
    then sort
    else sort ++ record { field = id_field; direction = asc } ∷ []

abbrev pub same_direction : SortDirection → SortDirection → Bool
same_direction asc asc = true
same_direction desc desc = true
same_direction _ _ = false

-- `cursorSortsEqual`
unfoldable pub cursor_sorts_equal : List CursorSort → List CursorSort → Bool
cursor_sorts_equal [] [] = true
cursor_sorts_equal (s ∷ left) (t ∷ right) =
    (str_eq s.field t.field && same_direction s.direction t.direction)
    && cursor_sorts_equal left right
cursor_sorts_equal _ _ = false

-- The loop of `copyRows`, with the rounds that are left.
unfoldable pub copy_from : List Row → ℕ → ℕ → List Row
copy_from rows zero index = []
copy_from rows (suc rounds) index = elim (get_elem? rows index) [
  | none ↦ []
  | some row ↦ row ∷ copy_from rows rounds (index + 1)
]

-- `copyRows`
unfoldable pub copy_rows : List Row → ℕ → ℕ → List Row
unfolding copy_from
copy_rows rows start end = copy_from rows (end - start) start

unfoldable pub last_row : List Row → Option Row
last_row [] = none
last_row (row ∷ []) = some row
last_row (row ∷ next ∷ rows) = last_row (next ∷ rows)

-- What `assertSafeCursor` allows of a text.
abbrev pub max_cursor_length : ℕ
max_cursor_length = 4096

-- The rows behind the cursor of the plan, which must have the sort of the query. `encoded_length` is the
-- length of the text of a cursor, which is its JSON in base64url.
unfoldable pub behind_cursor :
    (KeysetCursor → ℕ) → Option KeysetCursor → List CursorSort → List Row → Result (List Row)
unfolding cursor_sorts_equal after_cursor
behind_cursor encoded_length none sort list = ok list
behind_cursor encoded_length (some cursor) sort list = do
  guard (leb (encoded_length cursor) max_cursor_length) validation
  guard (cursor_sorts_equal cursor.sort sort) configuration
  ok (after_cursor cursor list)

unfoldable pub skip_offset : Option ℕ → List Row → List Row
unfolding copy_rows
skip_offset none list = list
skip_offset (some offset) list = copy_rows list offset (length list)

-- The cursor of the next page.
abbrev pub next_cursor : Bool → Option Row → List CursorSort → Option KeysetCursor
next_cursor true (some row) sort = some (record { sort = sort; values = cursor_values row sort })
next_cursor _ _ sort = none

abbrev pub whole_page : List Row → QueryResult
whole_page list = record { list = list; cursor = none; more = false; count = length list }

-- `assertSafeLimit`
abbrev pub is_safe_limit : ℕ → Bool
is_safe_limit limit = ltb 0 limit && ltb limit (2 ^ 53)

unfoldable pub limit_page : Option ℕ → List CursorSort → List Row → Result QueryResult
unfolding copy_rows last_row cursor_values
limit_page none sort list = ok (whole_page list)
limit_page (some limit) sort list = do
  guard (is_safe_limit limit) validation
  let more = ltb limit (length list)
  let page = copy_rows list 0 limit
  ok (record {
    list = page;
    cursor = next_cursor more (last_row page) sort;
    more = more;
    count = length page;
  })

-- `query`
unfoldable pub query : (KeysetCursor → ℕ) → QueryPlan → String → List Row → Result QueryResult
unfolding sort_with_stable_id sort_memory_rows behind_cursor skip_offset limit_page
query encoded_length plan id_field filtered = do
  let sort = sort_with_stable_id plan.sort id_field
  list ← behind_cursor encoded_length plan.cursor sort (sort_memory_rows sort filtered)
  limit_page plan.limit sort (skip_offset plan.offset list)
