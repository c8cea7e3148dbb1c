-- ===== src/MemoryStore/Query/Stable.antt =====
-- src/adapters/store/memory.ts: the merge sort keeps the order of values that compare as equal.
use active_ts.Prelude.{
  ℕ, zero, suc, ◌+◌, ◌*◌, ◌≤◌, ◌<◌, ◌≡◌, refl, ◌∙◌, ap, sym, Bool, true, false, List, [], ◌∷◌, ◌++◌,
  All, length, length-append, Bool-cases, inl, inr, arith, if◌then◌else◌, ltb,
}
use mathlib.Core.List.{append-nil, append_assoc}
use active_ts.Cursor.{Sign, less, same, greater, flip}
use active_ts.Cursor.Orders.{IsOrder, congruent_right}
use active_ts.MemoryStore.Query.Sort.{at_most, merge, merge_runs, merge_widths, merge_sort}
use active_ts.MemoryStore.Query.Merges.{
  IsAscending, merge_left, merge_right, at_most-cases, All-map,
}
use active_ts.MemoryStore.Query.Runs.{
  IsRuns, last, more, next_runs, next_runs-last, next_runs-two, next_runs-more, merge_runs-next,
  merge_runs-nil, merge_runs-IsRuns, single-IsRuns,
}

abbrev pub is_same : Sign → Bool
is_same same = true
is_same _ = false

module _ {A : Type 0} (compare : A → A → Sign) (k : A) where
  -- The values that compare as equal to `k`, in their order.
  unfoldable pub equal_to : List A → List A
  equal_to [] = []
  equal_to (x ∷ xs) =
      let rest : List A = equal_to xs in if is_same (compare x k) then x ∷ rest else rest

  equal_to-append : (xs ys : List A) → equal_to (xs ++ ys) ≡ equal_to xs ++ equal_to ys
  unfolding equal_to
  equal_to-append [] ys = refl
  equal_to-append (x ∷ xs) ys = elim (Bool-cases (is_same (compare x k))) [
    | inl here ↦ rw here (ap (λ zs. x ∷ zs) (equal_to-append xs ys))
    | inr other ↦ rw other (equal_to-append xs ys)
  ]

  equal_to-above : (xs : List A) → All (λ x. compare x k ≡ greater) xs → equal_to xs ≡ []
  unfolding equal_to
  equal_to-above [] h = refl
  equal_to-above (x ∷ xs) h = rw (h.0) (equal_to-above xs h.1)

is_same-same : (s : Sign) → is_same s ≡ true → s ≡ same
is_same-same less h = absurd (cc h)
is_same-same same h = refl
is_same-same greater h = absurd (cc h)

at_most-greater : (s : Sign) → at_most s ≡ false → s ≡ greater
at_most-greater less h = absurd (cc h)
at_most-greater same h = absurd (cc h)
at_most-greater greater h = refl

module _ {A : Type 0} (compare : A → A → Sign) (order : IsOrder compare) (k : A) where
  -- What is not below a value above `k` is above `k`.
  above : (x z : A) → compare x k ≡ greater → at_most (compare x z) ≡ true → compare z k ≡ greater
  above x z h g =
      let below : compare k x ≡ less = order.reverses x k ∙ ap flip h in
      let also : compare k z ≡ less = elim (at_most-cases (compare x z) g) [
        | inl before ↦ order.chains k x z below before
        | inr equal ↦ congruent_right order k x z equal ∙ below
      ] in
      order.reverses k z ∙ ap flip also

  -- A value that is taken from the right run has none equal to it in the left one.
  right_alone :
      (x : A) (xs : List A) (y : A)
      → IsAscending compare (x ∷ xs)
      → at_most (compare x y) ≡ false
      → compare y k ≡ same
      → equal_to compare k (x ∷ xs) ≡ []
  right_alone x xs y h right equal =
      let first : compare x k ≡ greater =
        congruent_right order x y k equal ∙ at_most-greater (compare x y) right in
      equal_to-above compare k (x ∷ xs) (first, All-map (λ z g. above x z first g) xs h.0)

  cons_if :
      (b : Bool) (x : A) (xs ys : List A)
      → (if b then x ∷ (xs ++ ys) else (xs ++ ys)) ≡ (if b then x ∷ xs else xs) ++ ys
  cons_if true x xs ys = refl
  cons_if false x xs ys = refl

  merge-equal_to :
      (xs ys : List A)
      → IsAscending compare xs
      → equal_to compare k (merge compare xs ys) ≡ equal_to compare k xs ++ equal_to compare k ys
  unfolding merge equal_to
  merge-equal_to [] ys h = refl
  merge-equal_to (x ∷ xs) [] h = sym (append-nil (equal_to compare k (x ∷ xs)))
  merge-equal_to (x ∷ xs) (y ∷ ys) h = elim (Bool-cases (at_most (compare x y))) [
    | inl left ↦ rw (merge_left compare x xs y ys left) (
        ap (λ zs. if is_same (compare x k) then x ∷ zs else zs) (merge-equal_to xs (y ∷ ys) h.1)
        ∙ cons_if (is_same (compare x k)) x (equal_to compare k xs) (equal_to compare k (y ∷ ys)))
    | inr right ↦ rw (merge_right compare x xs y ys right) (
        ap (λ zs. if is_same (compare y k) then y ∷ zs else zs) (merge-equal_to (x ∷ xs) ys h)
        ∙ elim (Bool-cases (is_same (compare y k))) [
          | inr other ↦ rw other refl
          | inl equal ↦
              let none_left = right_alone x xs y h right (is_same-same (compare y k) equal) in
              rw equal (
                ap (λ zs. y ∷ (zs ++ equal_to compare k ys)) none_left
                ∙ ap (λ zs. zs ++ y ∷ equal_to compare k ys) (sym none_left))
        ])
  ]

  merge_runs-equal_to :
      (fuel width : ℕ) (s : List A)
      → length s ≤ fuel
      → 0 < width
      → IsRuns compare width s
      → equal_to compare k (merge_runs compare fuel width s) ≡ equal_to compare k s
  merge_runs-equal_to zero width [] enough positive runs =
      ap (equal_to compare k) (merge_runs-nil compare order zero width)
  merge_runs-equal_to zero width (x ∷ xs) enough positive runs = absurd (omega (arith, enough))
  merge_runs-equal_to (suc fuel) width [] enough positive runs =
      ap (equal_to compare k) (merge_runs-nil compare order (suc fuel) width)
  merge_runs-equal_to (suc fuel) width (x ∷ xs) enough positive (last short ascends) =
      ap (equal_to compare k) (
        merge_runs-next compare order fuel width (x ∷ xs) (omega arith)
        ∙ next_runs-last compare order fuel width (x ∷ xs) short)
  merge_runs-equal_to (suc fuel) width (x ∷ xs) enough positive
        (more left ys is long ascends (last short also)) =
      ap (equal_to compare k) (
        merge_runs-next compare order fuel width (x ∷ xs) (omega arith)
        ∙ ap (next_runs compare order fuel width) is
        ∙ next_runs-two compare order fuel width left ys long short)
      ∙ merge-equal_to left ys ascends
      ∙ sym (equal_to-append compare k left ys)
      ∙ ap (equal_to compare k) (sym is)
  merge_runs-equal_to (suc fuel) width (x ∷ xs) enough positive
        (more left ys is long ascends (more right zs is' long' also rest)) =
      let split : ◌≡◌ {A = List A} (x ∷ xs) (left ++ (right ++ zs)) =
        is ∙ ap (λ r. left ++ r) is' in
      let size =
        ap length split
        ∙ length-append left (right ++ zs)
        ∙ ap (λ n. length left + n) (length-append right zs) in
      ap (equal_to compare k) (
        merge_runs-next compare order fuel width (x ∷ xs) (omega arith)
        ∙ ap (next_runs compare order fuel width) split
        ∙ next_runs-more compare order fuel width left right zs long long')
      ∙ equal_to-append compare k (merge compare left right) (merge_runs compare fuel width zs)
      ∙ ap (λ r. r ++ equal_to compare k (merge_runs compare fuel width zs))
          (merge-equal_to left right ascends)
      ∙ ap (λ r. (equal_to compare k left ++ equal_to compare k right) ++ r)
          (merge_runs-equal_to fuel width zs (omega (arith, size, long, positive, enough)) positive
            rest)
      ∙ append_assoc (equal_to compare k left) (equal_to compare k right) (equal_to compare k zs)
      ∙ ap (λ r. equal_to compare k left ++ r) (sym (equal_to-append compare k right zs))
      ∙ sym (equal_to-append compare k left (right ++ zs))
      ∙ ap (equal_to compare k) (sym split)

  merge_widths-equal_to :
      (fuel width : ℕ) (s : List A)
      → 0 < width
      → IsRuns compare width s
      → equal_to compare k (merge_widths compare fuel width s) ≡ equal_to compare k s
  unfolding merge_widths
  merge_widths-equal_to zero width s positive runs = refl
  merge_widths-equal_to (suc fuel) width s positive runs =
      elim (Bool-cases (ltb width (length s))) [
        | inl longer ↦ rw longer (
            merge_widths-equal_to fuel (width * 2) (merge_runs compare (length s) width s)
              (omega (arith, positive))
              (merge_runs-IsRuns compare order (length s) width s (omega arith) positive runs)
            ∙ merge_runs-equal_to (length s) width s (omega arith) positive runs)
        | inr done ↦ rw done refl
      ]

  pub merge_sort-equal_to :
      (s : List A) → equal_to compare k (merge_sort compare s) ≡ equal_to compare k s
  unfolding merge_sort
  merge_sort-equal_to s =
      merge_widths-equal_to (length s) 1 s (omega arith) (single-IsRuns compare order s)
