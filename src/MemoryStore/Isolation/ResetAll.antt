-- ===== src/MemoryStore/Isolation/ResetAll.antt =====
-- src/adapters/store/memory.ts: `reset` of all models keeps track of the rows that it deletes.
use active_ts.Prelude.{
  ℕ, ◌+◌, ◌<◌, ◌≡◌, refl, ◌∙◌, sym, true, List, [], ◌∷◌, ◌⊎◌, inl, inr, arith, Bool-cases,
  Option-cases, length,
}
use active_ts.Prelude.Text.{String, str_eq, str_eq_iff}
use active_ts.Prelude.Assoc.{lookup}
use active_ts.Prelude.Nested.{Nested, find, inner_map}
use active_ts.DataValue.{DataValue}
use active_ts.Errors.{ok, >>=-eq-ok, ok-injective}
use active_ts.MemoryStore.Revisions.{Revisions}
use active_ts.MemoryStore.Rows.{MemoryStore, is_some}
use active_ts.MemoryStore.Batches.{reserve, total_rows, record_all, record_deleted, reset_all}
use active_ts.MemoryStore.Isolation.Compaction.{IsActive}
use active_ts.MemoryStore.Isolation.Resets.{
  IsLater, record_deleted-IsLater, record_deleted-snapshots,
}
use active_ts.MemoryStore.Isolation.Tracking.{Tracks, reserve-Tracks}

pub record_all-snapshots :
    (removed : Nested DataValue) (revision : ℕ) (r : Revisions)
    → ((record_all removed revision r).snapshots ≡ r.snapshots)
      × ((record_all removed revision r).generation ≡ r.generation)
unfolding record_all
record_all-snapshots [] revision r = (refl, refl)
record_all-snapshots ((n, rows) ∷ removed) revision r =
    let (snapshots, generation) =
      record_all-snapshots removed (revision + length rows) (record_deleted n rows revision r) in
    let (same, equal) = record_deleted-snapshots n rows revision r in
    (snapshots ∙ same, generation ∙ equal)

no_place : (i j : String) → is_some (find {V = DataValue} i j []) ≡ true → ⊥
unfolding find inner_map lookup
no_place i j there = cc there

module _ (s : ℕ) where
  first_place :
      (n : String) (rows : List (String × DataValue)) (removed : Nested DataValue) (i j : String)
      → is_some (find i j ((n, rows) ∷ removed)) ≡ true
      → ((n ≡ i) × (is_some (lookup j rows) ≡ true)) ⊎ (is_some (find i j removed) ≡ true)
  unfolding find inner_map lookup
  first_place n rows removed i j there = elim (Bool-cases (str_eq n i)) [
    | inl here ↦ inl ((str_eq_iff n i).0 here, rw here at there)
    | inr elsewhere ↦ inr (rw elsewhere at there)
  ]

  -- Every removed row has a later revision, and so has every row that had one.
  record_all-IsLater :
      (removed : Nested DataValue) (revision : ℕ) (r : Revisions) (i j : String)
      → IsActive s r.snapshots
      → (total_rows removed ≡ 0) ⊎ (s < revision)
      → (is_some (find i j removed) ≡ true) ⊎ IsLater s i j r
      → IsLater s i j (record_all removed revision r)
  unfolding record_all total_rows
  record_all-IsLater [] revision r i j a later (inl there) = absurd (no_place i j there)
  record_all-IsLater [] revision r i j a later (inr known) = known
  record_all-IsLater ((n, rows) ∷ removed) revision r i j a later known =
      let here : (length rows ≡ 0) ⊎ (s < revision) = elim later [
        | inl empty ↦ inl (omega (arith, empty))
        | inr after ↦ inr after
      ] in
      let after_head = λ (k : ((n ≡ i) × (is_some (lookup j rows) ≡ true)) ⊎ IsLater s i j r).
        record_deleted-IsLater s n rows revision r i j a here k in
      record_all-IsLater removed (revision + length rows) (record_deleted n rows revision r) i j
        (rw (record_deleted-snapshots n rows revision r).0 a)
        (elim later [
          | inl empty ↦ inl (omega (arith, empty))
          | inr after ↦ inr (omega (arith, after))
        ])
        (elim known [
          | inr known_later ↦ inr (after_head (inr known_later))
          | inl there ↦ elim (first_place n rows removed i j there) [
            | inl head ↦ inr (after_head (inl head))
            | inr behind ↦ inl behind
          ]
        ])

  emptied : ℕ → MemoryStore → MemoryStore
  emptied first t = record t {
    collections = [];
    revisions = record_all t.collections first t.revisions;
  }

  emptied-Tracks :
      (rows : Nested DataValue) (first : ℕ) (t : MemoryStore)
      → (total_rows t.collections ≡ 0) ⊎ (s < first)
      → Tracks s rows t
      → Tracks s rows (emptied first t)
  unfolding emptied find inner_map lookup
  emptied-Tracks rows first t later tracks = record {
    active = rw (record_all-snapshots t.collections first t.revisions).0 tracks.active;
    bound = rw (record_all-snapshots t.collections first t.revisions).1 tracks.bound;
    seen = λ i j. elim (tracks.seen i j) [
      | inr known ↦
          inr
            (record_all-IsLater t.collections first t.revisions i j tracks.active later (inr known))
      | inl kept ↦ elim (Option-cases (find i j t.collections)) [
        | inl absent ↦ inl (sym absent ∙ kept)
        | inr (row, there) ↦ inr (
            record_all-IsLater t.collections first t.revisions i j tracks.active later
              (inl (rw there refl)))
      ]
    ];
  }

  pub reset_all-Tracks :
      (rows : Nested DataValue) (t : MemoryStore) {u : MemoryStore}
      → reset_all t ≡ ok u
      → Tracks s rows t
      → Tracks s rows u
  unfolding reset_all
  reset_all-Tracks rows t h tracks =
      let (reserved, got, h₁) = >>=-eq-ok (reserve (total_rows t.collections) t) _ h in
      let (tracked, same, later) = reserve-Tracks s rows (total_rows t.collections) t tracks got in
      rw (ok-injective (sym h₁), sym same)
        (unfold emptied in emptied-Tracks rows reserved.1 reserved.0 (rw same later) tracked)
