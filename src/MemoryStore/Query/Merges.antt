-- ===== src/MemoryStore/Query/Merges.antt =====
-- src/adapters/store/memory.ts: what a merge of two runs is.
use active_ts.Prelude.{
  ◌+◌, ◌≡◌, refl, true, false, List, [], ◌∷◌, ◌++◌, All, length, Bool-cases, ◌⊎◌, inl, inr, arith,
}
use mathlib.Core.List.{Perm, perm_middle, append-nil}
use mathlib.Core.List.Perm
use active_ts.Cursor.{Sign, less, same, greater, flip}
use active_ts.Cursor.Orders.{IsOrder, congruent_right}
use active_ts.MemoryStore.Query.Sort.{at_most, merge}

module _ {ℓ} {A : Type ℓ} (compare : A → A → Sign) where
  -- Each value is at most those behind it.
  abbrev pub IsAscending : List A → Type ℓ
  IsAscending [] = Unit
  IsAscending (x ∷ xs) = All (λ y. at_most (compare x y) ≡ true) xs × IsAscending xs

  pub merge_left :
      (x : A) (xs : List A) (y : A) (ys : List A)
      → at_most (compare x y) ≡ true
      → merge compare (x ∷ xs) (y ∷ ys) ≡ x ∷ merge compare xs (y ∷ ys)
  unfolding merge
  merge_left x xs y ys h = rw (h, merge) refl

  pub merge_right :
      (x : A) (xs : List A) (y : A) (ys : List A)
      → at_most (compare x y) ≡ false
      → merge compare (x ∷ xs) (y ∷ ys) ≡ y ∷ merge compare (x ∷ xs) ys
  unfolding merge
  merge_right x xs y ys h = rw (h, merge) refl

  -- A merge has the values of its runs.
  pub merge-perm : (xs ys : List A) → Perm (merge compare xs ys) (xs ++ ys)
  unfolding merge
  merge-perm [] ys = Perm.rfl
  merge-perm (x ∷ xs) [] = rw (append-nil xs) Perm.rfl
  merge-perm (x ∷ xs) (y ∷ ys) = elim (Bool-cases (at_most (compare x y))) [
    | inl left ↦ rw (merge_left x xs y ys left) (Perm.cons x (merge-perm xs (y ∷ ys)))
    | inr right ↦
        rw (merge_right x xs y ys right)
          (Perm.trans (Perm.cons y (merge-perm (x ∷ xs) ys)) (Perm.symm (perm_middle (x ∷ xs) ys)))
  ]

  pub merge-All :
      (P : A → Type 0) (xs ys : List A) → All P xs → All P ys → All P (merge compare xs ys)
  unfolding merge
  merge-All P [] ys h g = g
  merge-All P (x ∷ xs) [] h g = h
  merge-All P (x ∷ xs) (y ∷ ys) h g = elim (Bool-cases (at_most (compare x y))) [
    | inl left ↦ rw (merge_left x xs y ys left) (h.0, merge-All P xs (y ∷ ys) h.1 g)
    | inr right ↦ rw (merge_right x xs y ys right) (g.0, merge-All P (x ∷ xs) ys h g.1)
  ]

  pub merge-nil : (xs : List A) → merge compare xs [] ≡ xs
  unfolding merge
  merge-nil [] = refl
  merge-nil (x ∷ xs) = refl

  pub length-merge : (xs ys : List A) → length (merge compare xs ys) ≡ length xs + length ys
  unfolding merge
  length-merge [] ys = omega arith
  length-merge (x ∷ xs) [] = omega arith
  length-merge (x ∷ xs) (y ∷ ys) = elim (Bool-cases (at_most (compare x y))) [
    | inl left ↦ rw (merge_left x xs y ys left) (omega (arith, length-merge xs (y ∷ ys)))
    | inr right ↦ rw (merge_right x xs y ys right) (omega (arith, length-merge (x ∷ xs) ys))
  ]

pub All-map {ℓ} :
    {A : Type ℓ} {P Q : A → Type 0} (f : (a : A) → P a → Q a) (xs : List A) → All P xs → All Q xs
All-map f [] h = tt
All-map f (x ∷ xs) h = (f x h.0, All-map f xs h.1)

-- Of two values, one is at most the other.
at_most_total : (s : Sign) → at_most s ≡ false → at_most (flip s) ≡ true
at_most_total less h = absurd (cc h)
at_most_total same h = absurd (cc h)
at_most_total greater h = refl

pub at_most-cases : (s : Sign) → at_most s ≡ true → (s ≡ less) ⊎ (s ≡ same)
at_most-cases less h = inl refl
at_most-cases same h = inr refl
at_most-cases greater h = absurd (cc h)

module _ {A : Type 0} (compare : A → A → Sign) (order : IsOrder compare) where
  pub at_most_trans :
      (a b c : A)
      → at_most (compare a b) ≡ true
      → at_most (compare b c) ≡ true
      → at_most (compare a c) ≡ true
  at_most_trans a b c h g = elim (at_most-cases (compare a b) h) [
    | inr equal ↦ rw (order.congruent a b c equal) g
    | inl before ↦ elim (at_most-cases (compare b c) g) [
      | inl also ↦ rw (order.chains a b c before also) refl
      | inr equal ↦ rw (congruent_right order a b c equal) h
    ]
  ]

  pub merge-IsAscending :
      (xs ys : List A)
      → IsAscending compare xs
      → IsAscending compare ys
      → IsAscending compare (merge compare xs ys)
  unfolding merge
  merge-IsAscending [] ys h g = g
  merge-IsAscending (x ∷ xs) [] h g = h
  merge-IsAscending (x ∷ xs) (y ∷ ys) h g = elim (Bool-cases (at_most (compare x y))) [
    | inl left ↦ rw (merge_left compare x xs y ys left) (
      merge-All compare (λ z. at_most (compare x z) ≡ true) xs (y ∷ ys) h.0
          (left, All-map (λ z. at_most_trans x y z left) ys g.0),
      merge-IsAscending xs (y ∷ ys) h.1 g,
    )
    | inr right ↦
        let back : at_most (compare y x) ≡ true =
          rw (order.reverses x y) (at_most_total (compare x y) right) in
        rw (merge_right compare x xs y ys right) (
          merge-All compare (λ z. at_most (compare y z) ≡ true) (x ∷ xs) ys
              (back, All-map (λ z. at_most_trans y x z back) xs h.0) g.0,
          merge-IsAscending (x ∷ xs) ys h g.1,
        )
  ]
