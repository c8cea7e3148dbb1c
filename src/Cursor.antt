-- ===== src/Cursor.antt =====
-- src/core/cursor.ts: the order of rows and of the cursors of keyset pages. A row is read through `valueFor`
-- and `comparable`, so it is the function from fields to the values that these give; Cursor.Values has the rows
-- before `comparable`, and what it throws.
pub mod Orders
pub mod Rows
pub mod Pages
pub mod Values
use active_ts.Prelude.{
  ℕ, ◌+◌, ◌*◌, ◌-◌, ◌/◌, ◌%◌, Bool, true, false, List, [], ◌∷◌, ◌==◌, ltb, if◌then◌else◌, map,
}
use active_ts.Prelude.Int.{ℤ, pos, negsuc}
use active_ts.Prelude.Text.{String, code}

-- The sign of what a comparison returns.
pub data Sign : Type 0 where
  less same greater : Sign

-- `-order`
abbrev pub flip : Sign → Sign
flip less = greater
flip same = same
flip greater = less

abbrev pub or_else : Sign → Sign → Sign
or_else same rest = rest
or_else less rest = less
or_else greater rest = greater

unfoldable pub compare_nat : ℕ → ℕ → Sign
compare_nat a b = if a == b then same else if ltb b a then greater else less

unfoldable pub compare_int : ℤ → ℤ → Sign
unfolding compare_nat
compare_int (pos a) (pos b) = compare_nat a b
compare_int (pos a) (negsuc b) = greater
compare_int (negsuc a) (pos b) = less
compare_int (negsuc a) (negsuc b) = compare_nat b a

pub data Comparable : Type 0 where
  nothing : Comparable
  boolean : Bool → Comparable
  number : ℤ → Comparable
  string : String → Comparable

-- The units by which JavaScript compares texts.
unfoldable pub utf16 : String → List ℤ
utf16 String.[] = []
utf16 (String.◌∷◌ c s) =
    let rest : List ℤ = utf16 s in
    if ltb (code c) 0x10000
    then pos (code c) ∷ rest
    else pos (0xD800 + (code c - 0x10000) / 0x400)
      ∷ pos (0xDC00 + (code c - 0x10000) % 0x400)
      ∷ rest

-- `===` and `>` at texts: the first difference decides, and a prefix comes first.
unfoldable pub compare_units : List ℤ → List ℤ → Sign
unfolding compare_int
compare_units [] [] = same
compare_units [] (b ∷ ys) = less
compare_units (a ∷ xs) [] = greater
compare_units (a ∷ xs) (b ∷ ys) = or_else (compare_int a b) (compare_units xs ys)

abbrev pub number_of : Bool → ℤ
number_of false = pos 0
number_of true = pos 1

-- `comparableTypeRank`, with null before all.
abbrev pub comparable_type_rank : Comparable → ℤ
comparable_type_rank nothing = pos 0
comparable_type_rank (boolean b) = pos 1
comparable_type_rank (number z) = pos 2
comparable_type_rank (string s) = pos 3

unfoldable pub compare_values : Comparable → Comparable → Sign
unfolding compare_int compare_units utf16
compare_values (boolean a) (boolean b) = compare_int (number_of a) (number_of b)
compare_values (number a) (number b) = compare_int a b
compare_values (string a) (string b) = compare_units (utf16 a) (utf16 b)
compare_values a b = compare_int (comparable_type_rank a) (comparable_type_rank b)

pub data SortDirection : Type 0 where
  asc desc : SortDirection

pub record CursorSort : Type 0 where
  pub field : String
  pub direction : SortDirection

abbrev pub directed : SortDirection → Sign → Sign
directed asc order = order
directed desc order = flip order

-- `compareKeys`
unfoldable pub compare_keys : List CursorSort → List Comparable → List Comparable → Sign
unfolding compare_values
compare_keys (s ∷ ss) (a ∷ xs) (b ∷ ys) =
    or_else (directed s.direction (compare_values a b)) (compare_keys ss xs ys)
compare_keys _ _ _ = same

abbrev pub Row : Type 0
Row = String → Comparable

-- `cursorValues`, which is also `keyFor`.
unfoldable pub cursor_values : Row → List CursorSort → List Comparable
cursor_values row [] = []
cursor_values row (s ∷ ss) = row s.field ∷ cursor_values row ss

-- `compareRowsBySort`
unfoldable pub compare_rows_by_sort : Row → Row → List CursorSort → Sign
unfolding compare_values
compare_rows_by_sort a b [] = same
compare_rows_by_sort a b (s ∷ ss) =
    or_else (directed s.direction (compare_values (a s.field) (b s.field)))
      (compare_rows_by_sort a b ss)

pub record KeysetCursor : Type 0 where
  pub sort : List CursorSort
  pub values : List Comparable

unfoldable pub compare_row_to_values : Row → List CursorSort → List Comparable → Sign
unfolding compare_values
compare_row_to_values row (s ∷ ss) (v ∷ vs) =
    or_else (directed s.direction (compare_values (row s.field) v))
      (compare_row_to_values row ss vs)
compare_row_to_values row _ _ = same

-- `compareRowToCursor`
unfoldable pub compare_row_to_cursor : Row → KeysetCursor → Sign
unfolding compare_row_to_values
compare_row_to_cursor row cursor = compare_row_to_values row cursor.sort cursor.values

abbrev is_greater : Sign → Bool
is_greater greater = true
is_greater _ = false

-- src/adapters/store/memory.ts: the loop that keeps the rows after a cursor.
unfoldable pub after_cursor : KeysetCursor → List Row → List Row
unfolding compare_row_to_cursor
after_cursor cursor [] = []
after_cursor cursor (row ∷ rows) =
    let rest : List Row = after_cursor cursor rows in
    if is_greater (compare_row_to_cursor row cursor) then row ∷ rest else rest
