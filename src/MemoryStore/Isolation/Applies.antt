-- ===== src/MemoryStore/Isolation/Applies.antt =====
-- src/adapters/store/memory.ts: a commit keeps track of the rows that it changes.
use active_ts.Prelude.{
  ℕ, ◌<◌, ◌≡◌, refl, ◌∙◌, ap, sym, Option, none, some, List, [], ◌∷◌, inl, inr, arith, Option-cases,
}
use active_ts.Prelude.Text.{String}
use active_ts.Prelude.Nested.{Nested, find}
use active_ts.DataValue.{DataValue, clone_safe_data}
use active_ts.Errors.{ok, >>=-eq-ok, ok-injective, Result-cases}
use active_ts.MemoryStore.Rows.{MemoryStore}
use active_ts.MemoryStore.Commit.{
  DirtyChange, creates, updates, deletes, Entry, entries, mutation_count, write_value, delete_value,
  apply_change, apply_changes, commit_checks, check_changes, check_reads, apply_dirty,
}
use active_ts.MemoryStore.Isolation.Tracking.{
  Tracks, set_row-Tracks, unset_row-Tracks, reserve-Tracks,
}

apply_change-absent :
    (n k : String) (expected : Option ℕ) (revision : ℕ) (t : MemoryStore)
    → find n k t.collections ≡ none
    → apply_change n k (deletes expected) revision t ≡ ok (t, revision)
unfolding apply_change delete_value
apply_change-absent n k expected revision t absent = rw (absent, delete_value) refl

-- What is not counted changes nothing.
apply_changes-none :
    (changes : List (Entry DirtyChange)) (revision : ℕ) (t : MemoryStore)
    → mutation_count changes t ≡ 0
    → apply_changes changes revision t ≡ (t, ok tt)
unfolding apply_changes mutation_count
apply_changes-none [] revision t free = refl
apply_changes-none ((n, k, creates v) ∷ changes) revision t free = absurd (omega (arith, free))
apply_changes-none ((n, k, updates v e) ∷ changes) revision t free = absurd (omega (arith, free))
apply_changes-none ((n, k, deletes e) ∷ changes) revision t free =
    elim (Option-cases (find n k t.collections)) [
      | inr (row, there) ↦ absurd (omega (arith, rw there at free))
      | inl absent ↦
          rw (apply_change-absent n k e revision t absent, apply_changes)
            (apply_changes-none changes revision t (omega (arith, rw absent at free)))
    ]

pub mutation_count-collections :
    (changes : List (Entry DirtyChange)) (u t : MemoryStore)
    → u.collections ≡ t.collections
    → mutation_count changes u ≡ mutation_count changes t
unfolding mutation_count
mutation_count-collections [] u t same = refl
mutation_count-collections ((n, k, change) ∷ changes) u t same =
    cc (same, mutation_count-collections changes u t same)

-- A change, with the revision of the next one.
module _ (s : ℕ) (rows : Nested DataValue) where
  write_value-Tracks :
      (n k : String) (v : DataValue) (revision : ℕ) (t : MemoryStore) {u : MemoryStore} {next : ℕ}
      → s < revision
      → write_value n k v revision t ≡ ok (u, next)
      → Tracks s rows t
      → Tracks s rows u × (s < next)
  unfolding write_value
  write_value-Tracks n k v revision t later h tracks =
      let (row, cloned, h₁) = >>=-eq-ok (clone_safe_data v) _ h in
      (
        rw (sym (ap (λ y. y.0) (ok-injective h₁)))
            (set_row-Tracks s rows n k row revision t later tracks),
        rw (sym (ap (λ y. y.1) (ok-injective h₁))) (omega (arith, later)),
      )

  delete_value-Tracks :
      (n k : String) (row : Option DataValue) (revision : ℕ) (t : MemoryStore) {u : MemoryStore}
      {next : ℕ}
      → s < revision
      → delete_value n k row revision t ≡ ok (u, next)
      → Tracks s rows t
      → Tracks s rows u × (s < next)
  unfolding delete_value
  delete_value-Tracks n k none revision t later h tracks = (
    rw (sym (ap (λ y. y.0) (ok-injective h))) tracks,
    rw (sym (ap (λ y. y.1) (ok-injective h))) later,
  )
  delete_value-Tracks n k (some row) revision t later h tracks = (
    rw (sym (ap (λ y. y.0) (ok-injective h))) (unset_row-Tracks s rows n k revision t later tracks),
    rw (sym (ap (λ y. y.1) (ok-injective h))) (omega (arith, later)),
  )

  apply_change-Tracks :
      (n k : String) (change : DirtyChange) (revision : ℕ) (t : MemoryStore) {u : MemoryStore}
      {next : ℕ}
      → s < revision
      → apply_change n k change revision t ≡ ok (u, next)
      → Tracks s rows t
      → Tracks s rows u × (s < next)
  unfolding apply_change
  apply_change-Tracks n k (creates v) revision t later h tracks =
      write_value-Tracks n k v revision t later h tracks
  apply_change-Tracks n k (updates v e) revision t later h tracks =
      write_value-Tracks n k v revision t later h tracks
  apply_change-Tracks n k (deletes e) revision t later h tracks =
      delete_value-Tracks n k (find n k t.collections) revision t later h tracks

  apply_changes-Tracks :
      (changes : List (Entry DirtyChange)) (revision : ℕ) (t : MemoryStore)
      → s < revision
      → Tracks s rows t
      → Tracks s rows (apply_changes changes revision t).0
  unfolding apply_changes
  apply_changes-Tracks [] revision t later tracks = tracks
  apply_changes-Tracks ((n, k, change) ∷ changes) revision t later tracks =
      elim (Result-cases (apply_change n k change revision t)) [
        | inr (x, failing) ↦ rw (failing, apply_changes) tracks
        | inl ((u, next), applied) ↦
            let (tracked, after) =
              apply_change-Tracks n k change revision t {u = u} {next = next} later applied
                tracks in
            rw (applied, apply_changes) (apply_changes-Tracks changes next u after tracked)
      ]

  pub apply_dirty-Tracks :
      (dirty : Nested DirtyChange) (reads : Nested (Unit {0})) (snapshot : ℕ) (t : MemoryStore)
      → Tracks s rows t
      → Tracks s rows (apply_dirty dirty reads snapshot t).0
  unfolding apply_dirty commit_checks
  apply_dirty-Tracks dirty reads snapshot t tracks =
      elim (Result-cases (commit_checks dirty reads snapshot t)) [
        | inr (x, failing) ↦ rw (failing, apply_dirty) tracks
        | inl ((u, first), checked) ↦
            let (_, _, h₁) = >>=-eq-ok (check_changes (entries dirty) t) _ checked in
            let (_, _, h₂) = >>=-eq-ok (check_reads snapshot (entries reads) t) _ h₁ in
            let (tracked, same, later) =
              reserve-Tracks s rows (mutation_count (entries dirty) t) t {u = u} {first = first}
                tracks h₂ in
            rw (checked, apply_dirty)
              (elim later [
                | inl free ↦
                    rw
                      (apply_changes-none (entries dirty) first u
                        (mutation_count-collections (entries dirty) u t same ∙ free))
                      tracked
                | inr after ↦ apply_changes-Tracks (entries dirty) first u after tracked
              ])
      ]
