-- ===== src/MemoryStore/Isolation/Tracking.antt =====
-- src/adapters/store/memory.ts: writes keep track of the rows that they change.
use active_ts.Prelude.{
  ℕ, ◌+◌, ◌≤◌, ◌<◌, ◌≡◌, refl, ◌∙◌, ap, sym, true, false, some, List, [], ◌∷◌, ◌⊎◌, inl, inr, arith,
  Bool-cases, ltb, leb, ◌&&◌, ◌==◌, ==_iff, length,
}
use active_ts.Prelude.Text.{String}
use active_ts.Prelude.Nested.{Nested, find, same_place, find-put, find-drop_entry}
use active_ts.DataValue.{DataValue}
use active_ts.Errors.{ok, configuration, >>=-eq-ok, bind_guard, ok-injective}
use active_ts.MemoryStore.Revisions.{Revisions, reserve_row_revisions, max_row_revision}
use active_ts.MemoryStore.Rows.{MemoryStore, set_row, unset_row, reserve_one}
use active_ts.MemoryStore.Batches.{reserve, set_rows}
use active_ts.MemoryStore.Isolation.Compaction.{
  IsActive, record_row_revision-find, record_row_revision-snapshots,
}

-- The row at a place is as it was, or has a revision after the snapshot.
abbrev pub IsSeen : ℕ → Nested DataValue → MemoryStore → String → String → Type 0
IsSeen s rows t i j =
    (find i j t.collections ≡ find i j rows)
    ⊎ ((r : ℕ) × (find i j t.revisions.of_rows ≡ some r) × (s < r))

-- The store tracks its changes since the snapshot, at which it had the rows.
pub record Tracks (s : ℕ) (rows : Nested DataValue) (t : MemoryStore) : Type 0 where
  pub active : IsActive s t.revisions.snapshots
  pub bound : s ≤ t.revisions.generation
  pub seen : (i j : String) → IsSeen s rows t i j

pub reserve-collections :
    (count : ℕ) (s : MemoryStore) {u : MemoryStore} {first : ℕ}
    → reserve count s ≡ ok (u, first)
    → u.collections ≡ s.collections
unfolding reserve
reserve-collections count s h = elim (Bool-cases (count == 0)) [
  | inl nothing ↦
      ap (λ (y : MemoryStore × ℕ). y.0.collections)
        (sym (ok-injective (rw (nothing, reserve) at h)))
  | inr some_rows ↦
      let (reserved, got, h₁) =
        >>=-eq-ok (reserve_row_revisions count s.revisions) _ (rw (some_rows, reserve) at h) in
      ap (λ (y : MemoryStore × ℕ). y.0.collections) (sym (ok-injective h₁))
]

module _ (s : ℕ) (rows : Nested DataValue) where
  -- Revisions that are reserved come after the snapshot.
  pub reserve_row_revisions-Tracks :
      (count : ℕ) (t : MemoryStore) {r : Revisions} {first : ℕ}
      → Tracks s rows t
      → reserve_row_revisions count t.revisions ≡ ok (r, first)
      → Tracks s rows (record t { revisions = r }) × (s < first)
  unfolding reserve_row_revisions
  reserve_row_revisions-Tracks count t {r} {first} tracks h =
      let (_, h₁) =
        bind_guard (ltb 0 count && leb (t.revisions.generation + count) max_row_revision)
          configuration _ h in
      let r_is : record t.revisions { generation = t.revisions.generation + count } ≡ r =
        ap (λ y. y.0) (ok-injective h₁) in
      let first_is : t.revisions.generation + 1 ≡ first = ap (λ y. y.1) (ok-injective h₁) in
      (
        rw (sym r_is) (record {
          active = tracks.active;
          bound = omega (arith, tracks.bound);
          seen = tracks.seen;
        }),
        omega (arith, tracks.bound, first_is),
      )

  pub set_row-Tracks :
      (n k : String) (row : DataValue) (revision : ℕ) (t : MemoryStore)
      → s < revision
      → Tracks s rows t
      → Tracks s rows (set_row n k row revision t)
  unfolding set_row
  set_row-Tracks n k row revision t later tracks = record {
    active = rw (record_row_revision-snapshots n k revision true t.revisions).0 tracks.active;
    bound = rw (record_row_revision-snapshots n k revision true t.revisions).1 tracks.bound;
    seen = λ i j. elim (Bool-cases (same_place n k i j)) [
      | inl here ↦ inr (
        revision,
        record_row_revision-find s n k revision true t.revisions i j tracks.active later
            ∙ rw here refl,
        later,
      )
      | inr elsewhere ↦ elim (tracks.seen i j) [
        | inl kept ↦ inl (find-put n k row t.collections i j ∙ rw elsewhere kept)
        | inr (r, at, after) ↦ inr (
          r,
          record_row_revision-find s n k revision true t.revisions i j tracks.active later
              ∙ rw elsewhere at,
          after,
        )
      ]
    ];
  }

  pub unset_row-Tracks :
      (n k : String) (revision : ℕ) (t : MemoryStore)
      → s < revision
      → Tracks s rows t
      → Tracks s rows (unset_row n k revision t)
  unfolding unset_row
  unset_row-Tracks n k revision t later tracks = record {
    active = rw (record_row_revision-snapshots n k revision false t.revisions).0 tracks.active;
    bound = rw (record_row_revision-snapshots n k revision false t.revisions).1 tracks.bound;
    seen = λ i j. elim (Bool-cases (same_place n k i j)) [
      | inl here ↦ inr (
        revision,
        record_row_revision-find s n k revision false t.revisions i j tracks.active later
            ∙ rw here refl,
        later,
      )
      | inr elsewhere ↦ elim (tracks.seen i j) [
        | inl kept ↦ inl (find-drop_entry n k t.collections i j ∙ rw elsewhere kept)
        | inr (r, at, after) ↦ inr (
          r,
          record_row_revision-find s n k revision false t.revisions i j tracks.active later
              ∙ rw elsewhere at,
          after,
        )
      ]
    ];
  }

  pub reserve_one-Tracks :
      (t : MemoryStore) {u : MemoryStore} {first : ℕ}
      → Tracks s rows t
      → reserve_one t ≡ ok (u, first)
      → Tracks s rows u × (s < first)
  unfolding reserve_one
  reserve_one-Tracks t {u} {first} tracks h =
      let (reserved, got, h₁) = >>=-eq-ok (reserve_row_revisions 1 t.revisions) _ h in
      let (tracked, later) = reserve_row_revisions-Tracks 1 t tracks got in
      (
        rw (sym (ap (λ y. y.0) (ok-injective h₁))) tracked,
        rw (sym (ap (λ y. y.1) (ok-injective h₁))) later,
      )

  -- What is reserved for no row is the store as it is.
  pub reserve-Tracks :
      (count : ℕ) (t : MemoryStore) {u : MemoryStore} {first : ℕ}
      → Tracks s rows t
      → reserve count t ≡ ok (u, first)
      → Tracks s rows u × (u.collections ≡ t.collections) × ((count ≡ 0) ⊎ (s < first))
  unfolding reserve
  reserve-Tracks count t {u} {first} tracks h = elim (Bool-cases (count == 0)) [
    | inl nothing ↦
        let h₀ = ok-injective (rw (nothing, reserve) at h) in
        let same : t ≡ u = ap (λ y. y.0) h₀ in
        (
          rw (sym same) tracks,
          ap (λ (x : MemoryStore). x.collections) (sym same),
          inl ((==_iff count 0).0 nothing),
        )
    | inr some_rows ↦
        let (reserved, got, h₁) =
          >>=-eq-ok (reserve_row_revisions count t.revisions) _ (rw (some_rows, reserve) at h) in
        let (tracked, later) = reserve_row_revisions-Tracks count t tracks got in
        let same : record t { revisions = reserved.0 } ≡ u = ap (λ y. y.0) (ok-injective h₁) in
        (
          rw (sym same) tracked,
          ap (λ (x : MemoryStore). x.collections) (sym same),
          inr (rw (sym (ap (λ y. y.1) (ok-injective h₁))) later),
        )
  ]

  pub set_rows-Tracks :
      (n : String) (prepared : List (String × DataValue)) (revision : ℕ) (t : MemoryStore)
      → (length prepared ≡ 0) ⊎ (s < revision)
      → Tracks s rows t
      → Tracks s rows (set_rows n prepared revision t)
  unfolding set_rows
  set_rows-Tracks n [] revision t later tracks = tracks
  set_rows-Tracks n ((k, row) ∷ prepared) revision t (inl empty) tracks =
      absurd (omega (arith, empty))
  set_rows-Tracks n ((k, row) ∷ prepared) revision t (inr later) tracks =
      set_rows-Tracks n prepared (revision + 1) (set_row n k row revision t)
        (inr (omega (arith, later))) (set_row-Tracks n k row revision t later tracks)
