-- ===== src/Cursor/Orders.antt =====
-- src/core/cursor.ts: the comparison of rows is an order.
use active_ts.Prelude.{ℕ, ◌≡◌, refl, ◌∙◌, ap, sym, List, [], ◌∷◌, arith}
use active_ts.Prelude.Int.{ℤ, pos, negsuc}
use active_ts.Cursor.{
  Sign, less, same, greater, flip, or_else, compare_nat, compare_int, compare_units,
}

compare_nat-flip : (a b : ℕ) → compare_nat b a ≡ flip (compare_nat a b)
unfolding compare_nat
compare_nat-flip a b = ground arith

compare_nat-same : (a b : ℕ) → compare_nat a b ≡ same → a ≡ b
unfolding compare_nat
compare_nat-same a b h = ground arith

compare_nat_trans :
    (a b c : ℕ) → compare_nat a b ≡ less → compare_nat b c ≡ less → compare_nat a c ≡ less
unfolding compare_nat
compare_nat_trans a b c h g = ground arith

compare_int-flip : (a b : ℤ) → compare_int b a ≡ flip (compare_int a b)
unfolding compare_int
compare_int-flip (pos a) (pos b) = compare_nat-flip a b
compare_int-flip (pos a) (negsuc b) = refl
compare_int-flip (negsuc a) (pos b) = refl
compare_int-flip (negsuc a) (negsuc b) = compare_nat-flip b a

compare_int-same : (a b : ℤ) → compare_int a b ≡ same → a ≡ b
unfolding compare_int
compare_int-same (pos a) (pos b) h = ap pos (compare_nat-same a b h)
compare_int-same (pos a) (negsuc b) h = absurd (cc h)
compare_int-same (negsuc a) (pos b) h = absurd (cc h)
compare_int-same (negsuc a) (negsuc b) h = ap negsuc (sym (compare_nat-same b a h))

compare_int_trans :
    (a b c : ℤ) → compare_int a b ≡ less → compare_int b c ≡ less → compare_int a c ≡ less
unfolding compare_int
compare_int_trans (pos a) (pos b) (pos c) h g = compare_nat_trans a b c h g
compare_int_trans (pos a) (pos b) (negsuc c) h g = g
compare_int_trans (pos a) (negsuc b) c h g = absurd (cc h)
compare_int_trans (negsuc a) b (pos c) h g = refl
compare_int_trans (negsuc a) (pos b) (negsuc c) h g = absurd (cc g)
compare_int_trans (negsuc a) (negsuc b) (negsuc c) h g = compare_nat_trans c b a g h

-- A comparison that reverses with its arguments, and is transitive; equal values compare alike.
pub record IsOrder {ℓ} {A : Type ℓ} (compare : A → A → Sign) : Type ℓ where
  pub reverses : (a b : A) → compare b a ≡ flip (compare a b)
  pub congruent : (a b c : A) → compare a b ≡ same → compare a c ≡ compare b c
  pub chains : (a b c : A) → compare a b ≡ less → compare b c ≡ less → compare a c ≡ less

compare_int-IsOrder : IsOrder compare_int
compare_int-IsOrder = record {
  reverses = compare_int-flip;
  congruent = λ a b c h. ap (λ x. compare_int x c) (compare_int-same a b h);
  chains = compare_int_trans;
}

pub flip-or_else : (s t : Sign) → flip (or_else s t) ≡ or_else (flip s) (flip t)
flip-or_else less t = refl
flip-or_else same t = refl
flip-or_else greater t = refl

pub or_else-same : (s t : Sign) → or_else s t ≡ same → (s ≡ same) × (t ≡ same)
or_else-same same t h = (refl, h)
or_else-same less t h = absurd (cc h)
or_else-same greater t h = absurd (cc h)

pub flip-same : (s : Sign) → flip s ≡ same → s ≡ same
flip-same less h = absurd (cc h)
flip-same same h = refl
flip-same greater h = absurd (cc h)

-- Transitivity of the later comparison carries over to the first difference.
pub or_else-less :
    (p q r s t u : Sign)
    → (p ≡ less → q ≡ less → r ≡ less)
    → (p ≡ same → r ≡ q)
    → (q ≡ same → r ≡ p)
    → (s ≡ less → t ≡ less → u ≡ less)
    → or_else p s ≡ less
    → or_else q t ≡ less
    → or_else r u ≡ less
or_else-less less less r s t u chain left right rest h g = rw (chain refl refl) refl
or_else-less less same r s t u chain left right rest h g = rw (right refl) refl
or_else-less same less r s t u chain left right rest h g = rw (left refl) refl
or_else-less same same r s t u chain left right rest h g = rw (left refl) (rest h g)
or_else-less less greater r s t u chain left right rest h g = absurd (cc g)
or_else-less same greater r s t u chain left right rest h g = absurd (cc g)
or_else-less greater q r s t u chain left right rest h g = absurd (cc h)

-- What equals the second on the right.
pub congruent_right :
    {A : Type 0} {compare : A → A → Sign}
    → IsOrder compare
    → (a b c : A) → compare b c ≡ same
    → compare a c ≡ compare a b
congruent_right {compare = compare} o a b c h =
    o.reverses c a ∙ ap flip (sym (o.congruent b c a h)) ∙ sym (o.reverses b a)

compare_units-flip : (a b : List ℤ) → compare_units b a ≡ flip (compare_units a b)
unfolding compare_units
compare_units-flip [] [] = refl
compare_units-flip [] (b ∷ bs) = refl
compare_units-flip (a ∷ xs) [] = refl
compare_units-flip (a ∷ xs) (b ∷ bs) = cc (
  compare_int-flip a b,
  compare_units-flip xs bs,
  flip-or_else (compare_int a b) (compare_units xs bs),
)

compare_units-same : (a b : List ℤ) → compare_units a b ≡ same → a ≡ b
unfolding compare_units
compare_units-same [] [] h = refl
compare_units-same [] (b ∷ bs) h = absurd (cc h)
compare_units-same (a ∷ xs) [] h = absurd (cc h)
compare_units-same (a ∷ xs) (b ∷ bs) h =
    let (first, rest) = or_else-same (compare_int a b) (compare_units xs bs) h in
    cc (compare_int-same a b first, compare_units-same xs bs rest)

compare_units-congruent :
    (a b c : List ℤ) → compare_units a b ≡ same → compare_units a c ≡ compare_units b c
compare_units-congruent a b c h = ap (λ x. compare_units x c) (compare_units-same a b h)

compare_units_trans :
    (a b c : List ℤ)
    → compare_units a b ≡ less
    → compare_units b c ≡ less
    → compare_units a c ≡ less
unfolding compare_units
compare_units_trans [] [] c h g = absurd (cc h)
compare_units_trans [] (b ∷ bs) [] h g = absurd (cc g)
compare_units_trans [] (b ∷ bs) (c ∷ cs) h g = refl
compare_units_trans (a ∷ xs) [] c h g = absurd (cc h)
compare_units_trans (a ∷ xs) (b ∷ bs) [] h g = absurd (cc g)
compare_units_trans (a ∷ xs) (b ∷ bs) (c ∷ cs) h g =
    or_else-less (compare_int a b) (compare_int b c) (compare_int a c) (compare_units xs bs)
      (compare_units bs cs) (compare_units xs cs) (compare_int_trans a b c)
      (λ e. compare_int-IsOrder.congruent a b c e)
      (λ e. congruent_right compare_int-IsOrder a b c e) (compare_units_trans xs bs cs) h g

pub compare_units-IsOrder : IsOrder compare_units
compare_units-IsOrder = record {
  reverses = compare_units-flip;
  congruent = compare_units-congruent;
  chains = compare_units_trans;
}
