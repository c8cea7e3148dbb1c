-- ===== src/BatchLoader/Chunks.antt =====
-- src/core/batch-loader.ts, `chunkItems`: chunks are the items again, none larger than the size.
use active_ts.Prelude.{
  concat, ℕ, zero, suc, ◌-◌, ◌≤◌, ◌<◌, ◌≡◌, refl, ◌∙◌, ap, List, [], ◌∷◌, ◌++◌, length, take, drop,
  All, arith,
}
use active_ts.BatchLoader.Defs.{chunks_from, chunk_items}

module _ {ℓ} {A : Type ℓ} where
  take-append-drop : (n : ℕ) (xs : List A) → take n xs ++ drop n xs ≡ xs
  take-append-drop zero xs = refl
  take-append-drop (suc n) [] = refl
  take-append-drop (suc n) (x ∷ xs) = ap (λ ys. x ∷ ys) (take-append-drop n xs)

  length-drop : (n : ℕ) (xs : List A) → length (drop n xs) ≡ length xs - n
  length-drop zero xs = omega arith
  length-drop (suc n) [] = omega arith
  length-drop (suc n) (x ∷ xs) = omega (arith, length-drop n xs)

  length-take : (n : ℕ) (xs : List A) → length (take n xs) ≤ n
  length-take zero xs = omega arith
  length-take (suc n) [] = omega arith
  length-take (suc n) (x ∷ xs) = omega (arith, length-take n xs)

  take_pos : (n : ℕ) (x : A) (xs : List A) → 0 < n → 0 < length (take n (x ∷ xs))
  take_pos zero x xs pos = absurd (omega arith)
  take_pos (suc n) x xs pos = omega arith

  -- Not empty, and no larger than the size.
  abbrev pub IsChunk : ℕ → List A → Type 0
  IsChunk size chunk = (0 < length chunk) × (length chunk ≤ size)

  chunks_from_lem :
      (fuel size : ℕ) (xs : List A)
      → 0 < size
      → length xs ≤ fuel
      → (concat (chunks_from fuel size xs) ≡ xs) × All (IsChunk size) (chunks_from fuel size xs)
  unfolding chunks_from
  chunks_from_lem zero size [] pos enough = (refl, tt)
  chunks_from_lem zero size (x ∷ xs) pos enough = absurd (omega arith)
  chunks_from_lem (suc fuel) size [] pos enough = (refl, tt)
  chunks_from_lem (suc fuel) size (x ∷ xs) pos enough =
      let (all, each) =
        chunks_from_lem fuel size (drop size (x ∷ xs)) pos
          (omega (arith, length-drop size (x ∷ xs))) in
      (
        ap (λ ys. take size (x ∷ xs) ++ ys) all ∙ take-append-drop size (x ∷ xs),
        ((take_pos size x xs pos, length-take size (x ∷ xs)), each),
      )

  -- With a positive size, the chunks are the items in their order, and each holds one item or more
  -- and no more than the size.
  pub chunk_items_lem :
      (xs : List A) (size : ℕ)
      → 0 < size
      → (concat (chunk_items xs size) ≡ xs) × All (IsChunk size) (chunk_items xs size)
  unfolding chunk_items
  chunk_items_lem xs size pos = chunks_from_lem (length xs) size xs pos (omega arith)
