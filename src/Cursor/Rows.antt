-- ===== src/Cursor/Rows.antt =====
-- src/core/cursor.ts: the comparison of rows by a sort is an order.
use active_ts.Prelude.{◌≡◌, refl, ◌∙◌, ap, sym, List, [], ◌∷◌}
use active_ts.Prelude.Int.{ℤ, pos}
use active_ts.Cursor.{
  Sign, less, same, greater, flip, or_else, compare_int, Comparable, nothing, boolean, number,
  string, utf16, compare_units, number_of, compare_values, CursorSort, SortDirection, asc, desc,
  directed, compare_rows_by_sort, Row, compare_keys, cursor_values,
}
use active_ts.Cursor.Orders.{
  IsOrder, compare_units-IsOrder, flip-or_else, flip-same, or_else-same, or_else-less,
  congruent_right,
}

-- A value behind its rank, as a sequence that is compared as the value is.
ranked : Comparable → List ℤ
ranked nothing = pos 0 ∷ []
ranked (boolean b) = pos 1 ∷ number_of b ∷ []
ranked (number z) = pos 2 ∷ z ∷ []
ranked (string s) = pos 3 ∷ utf16 s

same-or_else : (s : Sign) → s ≡ or_else s same
same-or_else less = refl
same-or_else same = refl
same-or_else greater = refl

compare_values-ranked :
    (a b : Comparable) → compare_values a b ≡ compare_units (ranked a) (ranked b)
unfolding compare_values compare_units compare_int ranked
compare_values-ranked (boolean a) (boolean b) =
    same-or_else (compare_int (number_of a) (number_of b))
compare_values-ranked (number a) (number b) = same-or_else (compare_int a b)
compare_values-ranked (string a) (string b) = refl
compare_values-ranked nothing nothing = refl
compare_values-ranked nothing (boolean b) = refl
compare_values-ranked nothing (number b) = refl
compare_values-ranked nothing (string b) = refl
compare_values-ranked (boolean a) nothing = refl
compare_values-ranked (boolean a) (number b) = refl
compare_values-ranked (boolean a) (string b) = refl
compare_values-ranked (number a) nothing = refl
compare_values-ranked (number a) (boolean b) = refl
compare_values-ranked (number a) (string b) = refl
compare_values-ranked (string a) nothing = refl
compare_values-ranked (string a) (boolean b) = refl
compare_values-ranked (string a) (number b) = refl

compare_values-IsOrder : IsOrder compare_values
compare_values-IsOrder = record {
  reverses = λ a b.
      compare_values-ranked b a
      ∙ compare_units-IsOrder.reverses (ranked a) (ranked b)
      ∙ ap flip (sym (compare_values-ranked a b));
  congruent = λ a b c h.
      compare_values-ranked a c
      ∙ compare_units-IsOrder.congruent (ranked a) (ranked b) (ranked c)
          (sym (compare_values-ranked a b) ∙ h)
      ∙ sym (compare_values-ranked b c);
  chains = λ a b c h g.
      compare_values-ranked a c
      ∙ compare_units-IsOrder.chains (ranked a) (ranked b) (ranked c)
          (sym (compare_values-ranked a b) ∙ h) (sym (compare_values-ranked b c) ∙ g);
}

flip-less : (s : Sign) → flip s ≡ less → s ≡ greater
flip-less less h = absurd (cc h)
flip-less same h = absurd (cc h)
flip-less greater h = refl

directed-IsOrder :
    (d : SortDirection)
    → IsOrder (λ (a : Comparable) (b : Comparable). directed d (compare_values a b))
directed-IsOrder asc = compare_values-IsOrder
directed-IsOrder desc = record {
  reverses = λ a b. ap flip (compare_values-IsOrder.reverses a b);
  congruent = λ a b c h.
      ap flip (compare_values-IsOrder.congruent a b c (flip-same (compare_values a b) h));
  chains = λ a b c h g.
      sym (compare_values-IsOrder.reverses a c)
      ∙ compare_values-IsOrder.chains c b a (compare_values-IsOrder.reverses b c ∙ g)
          (compare_values-IsOrder.reverses a b ∙ h);
}

module _ (s : CursorSort) (ss : List CursorSort)
    (rest : IsOrder (λ (a : Row) (b : Row). compare_rows_by_sort a b ss)) where
  first : (a b : Row) → Sign
  first a b = directed s.direction (compare_values (a s.field) (b s.field))

  by_first : IsOrder first
  unfolding first
  by_first = record {
    reverses = λ a b. (directed-IsOrder s.direction).reverses (a s.field) (b s.field);
    congruent =
        λ a b c. (directed-IsOrder s.direction).congruent (a s.field) (b s.field) (c s.field);
    chains = λ a b c. (directed-IsOrder s.direction).chains (a s.field) (b s.field) (c s.field);
  }

  lexicographic-IsOrder : IsOrder (λ (a : Row) (b : Row). compare_rows_by_sort a b (s ∷ ss))
  unfolding compare_rows_by_sort first
  lexicographic-IsOrder = record {
    reverses = λ a b. cc (
      by_first.reverses a b,
      rest.reverses a b,
      flip-or_else (first a b) (compare_rows_by_sort a b ss),
    );
    congruent = λ a b c h.
        let (here, there) = or_else-same (first a b) (compare_rows_by_sort a b ss) h in
        cc (by_first.congruent a b c here, rest.congruent a b c there);
    chains = λ a b c h g.
        or_else-less (first a b) (first b c) (first a c) (compare_rows_by_sort a b ss)
          (compare_rows_by_sort b c ss) (compare_rows_by_sort a c ss) (by_first.chains a b c)
          (λ e. by_first.congruent a b c e) (λ e. congruent_right by_first a b c e)
          (rest.chains a b c) h g;
  }

-- For every sort, whatever values stand in its fields and in whatever directions, the comparison of rows is
-- an order: it reverses with its arguments, rows that compare as equal compare alike with any third, and it is
-- transitive.
pub compare_rows_by_sort-IsOrder :
    (sort : List CursorSort) → IsOrder (λ (a : Row) (b : Row). compare_rows_by_sort a b sort)
unfolding compare_rows_by_sort
compare_rows_by_sort-IsOrder [] = record {
  reverses = λ a b. refl;
  congruent = λ a b c h. refl;
  chains = λ a b c h g. h;
}
compare_rows_by_sort-IsOrder (s ∷ ss) = lexicographic-IsOrder s ss (compare_rows_by_sort-IsOrder ss)

-- For every sort, comparing the keys that were read off two rows once gives what comparing the rows gives.
pub compare_keys-cursor_values :
    (a b : Row) (sort : List CursorSort)
    → compare_keys sort (cursor_values a sort) (cursor_values b sort)
      ≡ compare_rows_by_sort a b sort
unfolding compare_keys cursor_values compare_rows_by_sort
compare_keys-cursor_values a b [] = refl
compare_keys-cursor_values a b (s ∷ ss) =
    ap (or_else (directed s.direction (compare_values (a s.field) (b s.field))))
      (compare_keys-cursor_values a b ss)
