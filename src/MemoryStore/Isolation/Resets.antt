-- ===== src/MemoryStore/Isolation/Resets.antt =====
-- src/adapters/store/memory.ts: `reset` keeps track of the rows that it deletes.
use active_ts.Prelude.{
  ℕ, ◌+◌, ◌<◌, ◌≡◌, refl, ◌∙◌, sym, true, false, none, some, List, [], ◌∷◌, ◌⊎◌, inl, inr, arith,
  if◌then◌else◌, Bool-cases, Option-cases, length,
}
use active_ts.Prelude.Text.{String, str_eq, str_eq_iff}
use active_ts.Prelude.Assoc.{lookup, erase, lookup-erase}
use active_ts.Prelude.Nested.{Nested, find, inner_map, same_place}
use active_ts.SafeKeys.{assert_safe_schema_identifier}
use active_ts.DataValue.{DataValue}
use active_ts.Errors.{ok, >>=-eq-ok, ok-injective}
use active_ts.MemoryStore.Revisions.{Revisions, record_row_revision}
use active_ts.MemoryStore.Rows.{MemoryStore, is_some}
use active_ts.MemoryStore.Batches.{reserve, reset, record_deleted}
use active_ts.MemoryStore.Isolation.Compaction.{
  IsActive, record_row_revision-find, record_row_revision-snapshots,
}
use active_ts.MemoryStore.Isolation.Tracking.{Tracks, IsSeen, reserve-Tracks}

pub record_deleted-snapshots :
    (n : String) (deleted : List (String × DataValue)) (revision : ℕ) (r : Revisions)
    → ((record_deleted n deleted revision r).snapshots ≡ r.snapshots)
      × ((record_deleted n deleted revision r).generation ≡ r.generation)
unfolding record_deleted
record_deleted-snapshots n [] revision r = (refl, refl)
record_deleted-snapshots n ((k, row) ∷ deleted) revision r =
    let (snapshots, generation) =
      record_deleted-snapshots n deleted (revision + 1)
        (record_row_revision n k revision false r) in
    let (same, equal) = record_row_revision-snapshots n k revision false r in
    (snapshots ∙ same, generation ∙ equal)

module _ (s : ℕ) where
  -- The revision of the place is after the snapshot.
  abbrev pub IsLater : String → String → Revisions → Type 0
  IsLater i j r = (x : ℕ) × (find i j r.of_rows ≡ some x) × (s < x)

  record_row_revision-IsLater :
      (n k : String) (revision : ℕ) (r : Revisions) (i j : String)
      → IsActive s r.snapshots
      → s < revision
      → (same_place n k i j ≡ true) ⊎ IsLater i j r
      → IsLater i j (record_row_revision n k revision false r)
  record_row_revision-IsLater n k revision r i j a later known =
      elim (Bool-cases (same_place n k i j)) [
        | inl here ↦ (
          revision,
          record_row_revision-find s n k revision false r i j a later ∙ rw here refl,
          later,
        )
        | inr elsewhere ↦ elim known [
          | inl here ↦ absurd (cc (elsewhere, here))
          | inr (x, at, after) ↦ (
            x,
            record_row_revision-find s n k revision false r i j a later ∙ rw elsewhere at,
            after,
          )
        ]
      ]

  -- Every deleted row has a later revision, and so has every row that had one.
  pub record_deleted-IsLater :
      (n : String) (deleted : List (String × DataValue)) (revision : ℕ) (r : Revisions)
      (i j : String)
      → IsActive s r.snapshots
      → (length deleted ≡ 0) ⊎ (s < revision)
      → ((n ≡ i) × (is_some (lookup j deleted) ≡ true)) ⊎ IsLater i j r
      → IsLater i j (record_deleted n deleted revision r)
  unfolding record_deleted lookup
  record_deleted-IsLater n [] revision r i j a later (inl (same, there)) = absurd (cc there)
  record_deleted-IsLater n [] revision r i j a later (inr known) = known
  record_deleted-IsLater n ((k, row) ∷ deleted) revision r i j a (inl empty) known =
      absurd (omega (arith, empty))
  record_deleted-IsLater n ((k, row) ∷ deleted) revision r i j a (inr later) known =
      record_deleted-IsLater n deleted (revision + 1) (record_row_revision n k revision false r) i j
        (rw (record_row_revision-snapshots n k revision false r).0 a) (inr (omega (arith, later)))
        (elim known [
          | inr known_later ↦
              inr (record_row_revision-IsLater n k revision r i j a later (inr known_later))
          | inl (same, there) ↦ elim (Bool-cases (str_eq k j)) [
            | inl here ↦ inr (
                record_row_revision-IsLater n k revision r i j a later
                  (inl (rw ((str_eq_iff n i).1 same, here) refl)))
            | inr elsewhere ↦ inl (same, rw elsewhere at there)
          ]
        ])

  find-erase :
      (n : String) (m : Nested DataValue) (i j : String)
      → find i j (erase n m) ≡ (if str_eq n i then none else find i j m)
  unfolding find inner_map lookup
  find-erase n m i j = elim (Bool-cases (str_eq n i)) [
    | inl here ↦ rw (lookup-erase n i m, here) refl
    | inr elsewhere ↦ rw (lookup-erase n i m, elsewhere) refl
  ]

  without : String → ℕ → MemoryStore → MemoryStore
  without n first t = record t {
    collections = erase n t.collections;
    revisions = record_deleted n (inner_map n t.collections) first t.revisions;
  }

  IsSeen-without :
      (rows : Nested DataValue) (n : String) (first : ℕ) (t : MemoryStore)
      → (length (inner_map n t.collections) ≡ 0) ⊎ (s < first)
      → Tracks s rows t
      → (i j : String) → IsSeen s rows (without n first t) i j
  unfolding without find inner_map
  IsSeen-without rows n first t later tracks i j = elim (tracks.seen i j) [
    | inr known ↦ inr (
        record_deleted-IsLater n (inner_map n t.collections) first t.revisions i j tracks.active
          later (inr known))
    | inl kept ↦ elim (Bool-cases (str_eq n i)) [
      | inr elsewhere ↦ inl (find-erase n t.collections i j ∙ rw elsewhere kept)
      | inl here ↦ elim (Option-cases (find i j t.collections)) [
        | inl absent ↦ inl (find-erase n t.collections i j ∙ rw here (sym absent ∙ kept))
        | inr (row, there) ↦ inr (
            record_deleted-IsLater n (inner_map n t.collections) first t.revisions i j tracks.active
              later (inl ((str_eq_iff n i).0 here, rw ((str_eq_iff n i).0 here, there) refl)))
      ]
    ]
  ]

  without-Tracks :
      (rows : Nested DataValue) (n : String) (first : ℕ) (t : MemoryStore)
      → (length (inner_map n t.collections) ≡ 0) ⊎ (s < first)
      → Tracks s rows t
      → Tracks s rows (without n first t)
  unfolding without
  without-Tracks rows n first t later tracks = record {
    active =
        rw (record_deleted-snapshots n (inner_map n t.collections) first t.revisions).0
          tracks.active;
    bound =
        rw (record_deleted-snapshots n (inner_map n t.collections) first t.revisions).1
          tracks.bound;
    seen = λ i j. IsSeen-without rows n first t later tracks i j;
  }

  pub reset-Tracks :
      (rows : Nested DataValue) (model_name : String) (t : MemoryStore) {u : MemoryStore}
      → reset model_name t ≡ ok u
      → Tracks s rows t
      → Tracks s rows u
  unfolding reset
  reset-Tracks rows model_name t h tracks =
      let (name, _, h₁) = >>=-eq-ok (assert_safe_schema_identifier model_name) _ h in
      let (reserved, got, h₂) =
        >>=-eq-ok (reserve (length (inner_map name t.collections)) t) _ h₁ in
      let (tracked, same, later) =
        reserve-Tracks s rows (length (inner_map name t.collections)) t tracks got in
      rw (ok-injective (sym h₂), sym same)
        (unfold without in without-Tracks rows name reserved.1 reserved.0 (rw same later) tracked)
