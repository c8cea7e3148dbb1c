-- ===== src/MemoryStore/Query/Ends.antt =====
-- src/adapters/store/memory.ts: where a page of the sorted rows ends.
use active_ts.Prelude.{
  ℕ, zero, suc, ◌+◌, ◌-◌, ◌≤◌, ◌<◌, ◌≡◌, refl, ◌∙◌, ap, true, none, some, List, [], ◌∷◌, ◌++◌,
  length, take, drop, get_elem?, ◌⊎◌, inl, inr, arith,
}
use active_ts.Prelude.Text.{str_eq_refl}
use active_ts.Cursor.{SortDirection, asc, desc, CursorSort, Row}
use active_ts.MemoryStore.Query.Page.{
  cursor_sorts_equal, same_direction, copy_from, copy_rows, last_row,
}

drop-get :
    (rows : List Row) (index : ℕ)
    → ((get_elem? rows index ≡ none) × (drop index rows ≡ []))
      ⊎ ((row : Row) × (get_elem? rows index ≡ some row)
          × (drop index rows ≡ row ∷ drop (suc index) rows))
drop-get [] zero = inl (refl, refl)
drop-get [] (suc index) = inl (refl, refl)
drop-get (row ∷ rows) zero = inr (row, refl, refl)
drop-get (row ∷ rows) (suc index) = drop-get rows index

copy_from-take :
    (rows : List Row) (rounds index : ℕ)
    → copy_from rows rounds index ≡ take rounds (drop index rows)
unfolding copy_from
copy_from-take rows zero index = refl
copy_from-take rows (suc rounds) index = elim (drop-get rows index) [
  | inl (absent, empty) ↦ rw (absent, copy_from, empty) refl
  | inr (row, there, split) ↦
      let e : index + 1 ≡ suc index = omega arith in
      rw (there, copy_from, split)
        (ap (λ rs. row ∷ rs)
          (copy_from-take rows rounds (index + 1) ∙ ap (λ k. take rounds (drop k rows)) e))
]

pub copy_rows-take : (rows : List Row) (n : ℕ) → copy_rows rows 0 n ≡ take n rows
unfolding copy_rows
copy_rows-take rows n = let e : n - 0 ≡ n = omega arith in rw e (copy_from-take rows n 0)

same_direction_refl : (d : SortDirection) → same_direction d d ≡ true
same_direction_refl asc = refl
same_direction_refl desc = refl

-- Where a page ends.
pub record Split (n : ℕ) (rows : List Row) : Type 0 where
  pub front : List Row
  pub at : Row
  pub behind : List Row
  pub whole : rows ≡ front ++ at ∷ behind
  pub page : take n rows ≡ front ++ at ∷ []
  pub final : last_row (take n rows) ≡ some at
  pub fewer : length behind < length rows
  pub size : length (front ++ at ∷ []) ≡ n

pub Split-page : (n : ℕ) (rows : List Row) → 0 < n → n ≤ length rows → Split n rows
unfolding last_row
Split-page zero rows h g = absurd (omega (arith, h))
Split-page (suc n) [] h g = absurd (omega (arith, g))
Split-page (suc zero) (row ∷ rows) h g = record {
  front = [];
  at = row;
  behind = rows;
  whole = refl;
  page = refl;
  final = refl;
  fewer = omega arith;
  size = refl;
}
Split-page (suc (suc n)) (row ∷ []) h g = absurd (omega (arith, g))
Split-page (suc (suc n)) (row ∷ next ∷ rows) h g =
    let rest = Split-page (suc n) (next ∷ rows) (omega arith) (omega (arith, g)) in
    record {
      front = row ∷ rest.front;
      at = rest.at;
      behind = rest.behind;
      whole = ap (λ rs. row ∷ rs) rest.whole;
      page = ap (λ rs. row ∷ rs) rest.page;
      final = rest.final;
      fewer = omega (arith, rest.fewer);
      size = omega (arith, rest.size);
    }

pub cursor_sorts_equal_refl : (sort : List CursorSort) → cursor_sorts_equal sort sort ≡ true
unfolding cursor_sorts_equal
cursor_sorts_equal_refl [] = refl
cursor_sorts_equal_refl (s ∷ sort) =
    rw (str_eq_refl s.field, same_direction_refl s.direction) (cursor_sorts_equal_refl sort)
