-- ===== src/MemoryStore/Query/Runs.antt =====
-- src/adapters/store/memory.ts: the rounds of the merge sort, each of which doubles the runs that ascend.
use active_ts.Prelude.{
  ℕ, zero, suc, ◌+◌, ◌*◌, ◌≤◌, ◌<◌, ◌≡◌, refl, ◌∙◌, ap, List, [], ◌∷◌, ◌++◌, length, length-append,
  take, drop, Bool-cases, inl, inr, arith, ltb,
}
use mathlib.Core.List.{Perm, append-nil}
use mathlib.Core.List.Perm
use active_ts.Cursor.{Sign}
use active_ts.Cursor.Orders.{IsOrder}
use active_ts.MemoryStore.Query.Sort.{merge, merge_runs, merge_widths, merge_sort}
use active_ts.MemoryStore.Query.Merges.{
  IsAscending, merge-perm, merge-nil, length-merge, merge-IsAscending,
}
use active_ts.MemoryStore.Query.Slices.{
  take-append, drop-append, take-all, drop-all, drop-nil, drop_twice, two_runs,
}

module _ {A : Type 0} (compare : A → A → Sign) where
  -- A list of runs that ascend, of one width but for the last, which may be shorter.
  pub data IsRuns (width : ℕ) : List A → Type 0 where
    last : {s : List A} → length s ≤ width → IsAscending compare s → IsRuns width s
    more :
        {s : List A} (xs ys : List A)
        → s ≡ xs ++ ys
        → length xs ≡ width
        → IsAscending compare xs
        → IsRuns width ys
        → IsRuns width s

  -- The values are only moved.
  pub merge_runs-perm : (fuel width : ℕ) (s : List A) → Perm (merge_runs compare fuel width s) s
  unfolding merge_runs
  merge_runs-perm zero width s = Perm.rfl
  merge_runs-perm (suc fuel) width [] = Perm.rfl
  merge_runs-perm (suc fuel) width (x ∷ xs) = rw (two_runs width (x ∷ xs)) at (
      Perm.append (merge-perm compare (take width (x ∷ xs)) (take width (drop width (x ∷ xs))))
        (merge_runs-perm fuel width (drop (width * 2) (x ∷ xs))))

module _ {A : Type 0} (compare : A → A → Sign) (order : IsOrder compare) where
  pub merge_runs-nil : (fuel width : ℕ) → merge_runs compare fuel width [] ≡ []
  unfolding merge_runs
  merge_runs-nil zero width = refl
  merge_runs-nil (suc fuel) width = refl

  -- The next round of the loop, by how the source begins.
  module _ (fuel width : ℕ) where
    pub next_runs : List A → List A
    next_runs s =
        merge compare (take width s) (take width (drop width s))
        ++ merge_runs compare fuel width (drop width (drop width s))

    pub merge_runs-next :
        (s : List A) → 0 < length s → merge_runs compare (suc fuel) width s ≡ next_runs s
    unfolding merge_runs next_runs
    merge_runs-next [] h = absurd (omega (arith, h))
    merge_runs-next (x ∷ xs) h =
        ap
          (λ r.
            merge compare (take width (x ∷ xs)) (take width (drop width (x ∷ xs)))
            ++ merge_runs compare fuel width r)
          (drop_twice width (x ∷ xs))

    pub next_runs-last : (s : List A) → length s ≤ width → next_runs s ≡ s
    unfolding next_runs
    next_runs-last s h =
        rw
          (
            take-all width s h,
            drop-all width s h,
            take-all {A = A} width [] (omega arith),
            drop-nil width,
            merge_runs-nil fuel width,
            merge-nil compare s,
          )
          (append-nil s)

    pub next_runs-two :
        (xs ys : List A)
        → length xs ≡ width
        → length ys ≤ width
        → next_runs (xs ++ ys) ≡ merge compare xs ys
    unfolding next_runs
    next_runs-two xs ys h g =
        rw
          (
            take-append width xs ys h,
            drop-append width xs ys h,
            take-all width ys g,
            drop-all width ys g,
            merge_runs-nil fuel width,
          )
          (append-nil (merge compare xs ys))

    pub next_runs-more :
        (xs ys zs : List A)
        → length xs ≡ width
        → length ys ≡ width
        → next_runs (xs ++ (ys ++ zs)) ≡ merge compare xs ys ++ merge_runs compare fuel width zs
    unfolding next_runs
    next_runs-more xs ys zs h g =
        rw
          (
            take-append width xs (ys ++ zs) h,
            drop-append width xs (ys ++ zs) h,
            take-append width ys zs g,
            drop-append width ys zs g,
          )
          refl

  pub merge_runs-IsRuns :
      (fuel width : ℕ) (s : List A)
      → length s ≤ fuel
      → 0 < width
      → IsRuns compare width s
      → IsRuns compare (width * 2) (merge_runs compare fuel width s)
  merge_runs-IsRuns zero width [] enough positive runs =
      rw (merge_runs-nil zero width) (last (omega arith) tt)
  merge_runs-IsRuns zero width (x ∷ xs) enough positive runs = absurd (omega (arith, enough))
  merge_runs-IsRuns (suc fuel) width [] enough positive runs =
      rw (merge_runs-nil (suc fuel) width) (last (omega arith) tt)
  merge_runs-IsRuns (suc fuel) width (x ∷ xs) enough positive (last short ascends) =
      rw
        (merge_runs-next fuel width (x ∷ xs) (omega arith)
          ∙ next_runs-last fuel width (x ∷ xs) short)
        (last (omega (arith, short)) ascends)
  merge_runs-IsRuns (suc fuel) width (x ∷ xs) enough positive
        (more left ys is long ascends (last short also)) =
      rw
        (merge_runs-next fuel width (x ∷ xs) (omega arith)
          ∙ ap (next_runs fuel width) is
          ∙ next_runs-two fuel width left ys long short)
        (last (omega (arith, length-merge compare left ys, long, short))
          (merge-IsAscending compare order left ys ascends also))
  merge_runs-IsRuns (suc fuel) width (x ∷ xs) enough positive
        (more left ys is long ascends (more right zs is' long' also rest)) =
      let size : length (x ∷ xs) ≡ length left + (length right + length zs) =
        ap length (is ∙ ap (λ r. left ++ r) is')
        ∙ length-append left (right ++ zs)
        ∙ ap (λ n. length left + n) (length-append right zs) in
      more (merge compare left right) (merge_runs compare fuel width zs)
        (merge_runs-next fuel width (x ∷ xs) (omega arith)
          ∙ ap (next_runs fuel width) (is ∙ ap (λ r. left ++ r) is')
          ∙ next_runs-more fuel width left right zs long long')
        (omega (arith, length-merge compare left right, long, long'))
        (merge-IsAscending compare order left right ascends also)
        (merge_runs-IsRuns fuel width zs (omega (arith, size, long, positive, enough)) positive
          rest)

  pub length-merge_runs :
      (fuel width : ℕ) (s : List A) → length (merge_runs compare fuel width s) ≡ length s
  unfolding merge_runs
  length-merge_runs zero width s = refl
  length-merge_runs (suc fuel) width [] = refl
  length-merge_runs (suc fuel) width (x ∷ xs) =
      let left = take width (x ∷ xs) in
      let right = take width (drop width (x ∷ xs)) in
      let rest = drop (width * 2) (x ∷ xs) in
      let whole = ap length (two_runs width (x ∷ xs)) in
      omega (
        arith,
        length-append (merge compare left right) (merge_runs compare fuel width rest),
        length-merge compare left right,
        length-merge_runs fuel width rest,
        length-append (left ++ right) rest,
        length-append left right,
        whole,
      )

  IsRuns-IsAscending :
      (width : ℕ) (s : List A) → length s ≤ width → IsRuns compare width s → IsAscending compare s
  IsRuns-IsAscending width s h (last short ascends) = ascends
  IsRuns-IsAscending width s h (more xs [] is long ascends rest) = rw (is ∙ append-nil xs) ascends
  IsRuns-IsAscending width s h (more xs (y ∷ ys) is long ascends rest) =
      absurd (omega (arith, h, long, ap length is, length-append xs (y ∷ ys)))

  -- Enough rounds make one run.
  merge_widths-IsAscending :
      (fuel width : ℕ) (s : List A)
      → length s ≤ width + fuel
      → 0 < width
      → IsRuns compare width s
      → IsAscending compare (merge_widths compare fuel width s)
  unfolding merge_widths
  merge_widths-IsAscending zero width s enough positive runs =
      IsRuns-IsAscending width s (omega (arith, enough)) runs
  merge_widths-IsAscending (suc fuel) width s enough positive runs =
      elim (Bool-cases (ltb width (length s))) [
        | inl longer ↦ rw longer (
            merge_widths-IsAscending fuel (width * 2) (merge_runs compare (length s) width s)
              (omega (arith, length-merge_runs (length s) width s, enough, positive))
              (omega (arith, positive))
              (merge_runs-IsRuns (length s) width s (omega arith) positive runs))
        | inr done ↦ rw done (IsRuns-IsAscending width s (ground (arith)) runs)
      ]

  merge_widths-perm : (fuel width : ℕ) (s : List A) → Perm (merge_widths compare fuel width s) s
  unfolding merge_widths
  merge_widths-perm zero width s = Perm.rfl
  merge_widths-perm (suc fuel) width s = elim (Bool-cases (ltb width (length s))) [
    | inl longer ↦ rw longer (
        Perm.trans (merge_widths-perm fuel (width * 2) (merge_runs compare (length s) width s))
          (merge_runs-perm compare (length s) width s))
    | inr done ↦ rw done Perm.rfl
  ]

  pub single-IsRuns : (s : List A) → IsRuns compare 1 s
  single-IsRuns [] = last (omega arith) tt
  single-IsRuns (x ∷ xs) = more (x ∷ []) xs refl refl (tt, tt) (single-IsRuns xs)

  pub merge_sort-IsAscending : (s : List A) → IsAscending compare (merge_sort compare s)
  unfolding merge_sort
  merge_sort-IsAscending s =
      merge_widths-IsAscending (length s) 1 s (omega arith) (omega arith) (single-IsRuns s)

  pub merge_sort-perm : (s : List A) → Perm (merge_sort compare s) s
  unfolding merge_sort
  merge_sort-perm s = merge_widths-perm (length s) 1 s

  length-merge_widths :
      (fuel width : ℕ) (s : List A) → length (merge_widths compare fuel width s) ≡ length s
  unfolding merge_widths
  length-merge_widths zero width s = refl
  length-merge_widths (suc fuel) width s = elim (Bool-cases (ltb width (length s))) [
    | inl longer ↦ rw longer (
        length-merge_widths fuel (width * 2) (merge_runs compare (length s) width s)
        ∙ length-merge_runs (length s) width s)
    | inr done ↦ rw done refl
  ]

  pub length-merge_sort : (s : List A) → length (merge_sort compare s) ≡ length s
  unfolding merge_sort
  length-merge_sort s = length-merge_widths (length s) 1 s
