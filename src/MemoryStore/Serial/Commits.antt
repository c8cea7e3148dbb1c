-- ===== src/MemoryStore/Serial/Commits.antt =====
-- src/adapters/store/memory.ts: a transaction and its commit, `transaction` and `applyDirty`.
use active_ts.Prelude.{
  ℕ, ◌≡◌, refl, ◌∙◌, ap, sym, true, Option, none, some, List, [], ◌∷◌, if◌then◌else◌, Bool-cases,
  inl, inr, lt→ltb,
}
use active_ts.Prelude.Text.{String}
use active_ts.Prelude.Nested.{Nested, find, same_place, same_place-true}
use active_ts.DataValue.{DataValue}
use active_ts.Errors.{ActiveTsError, ok, throw, conflict, >>=-eq-ok, bind_guard, Result-cases}
use active_ts.MemoryStore.Rows.{MemoryStore, is_some}
use active_ts.MemoryStore.Commit.{
  DirtyChange, Entry, entries, is_unchanged, check_changes, check_reads, mutation_count,
  apply_changes, commit_checks, apply_dirty,
}
use active_ts.MemoryStore.Transaction.{Transaction, begin, Runs}
use active_ts.MemoryStore.Isolation.Tracking.{IsSeen}
use active_ts.MemoryStore.Isolation.Evolution.{Evolves, Evolves-Tracks, Tracks-begin}
use active_ts.MemoryStore.Isolation.Tracking.{reserve-collections}
use active_ts.MemoryStore.Serial.Entries.{found, found-entries, found-some, entries-IsDistinct}
use active_ts.MemoryStore.Serial.Places.{Overlaid}
use active_ts.MemoryStore.Serial.Overlay.{IsOverlay, Runs-IsOverlay}
use active_ts.MemoryStore.Serial.Effects.{IsCleanMark, marked_row, apply_changes_lem}

mark_clean :
    (before after : Option DataValue) (mark : Option DirtyChange)
    → Overlaid before after mark
    → IsCleanMark mark
mark_clean before after none h = tt
mark_clean before after (some change) h = h.2

mark_row :
    (before after row : Option DataValue) (mark : Option DirtyChange)
    → Overlaid before after mark
    → marked_row mark row ≡ (if is_some mark then after else row)
mark_row before after row none h = refl
mark_row before after row (some change) h = sym h.0

-- The changes of a transaction are applied without an error.
pub apply_changes-Overlay :
    (rows : Nested DataValue) (t : Transaction) (revision : ℕ) (s : MemoryStore)
    → IsOverlay rows t
    → ((apply_changes (entries t.dirty) revision s).1 ≡ ok tt)
      × ((i j : String)
          → find i j (apply_changes (entries t.dirty) revision s).0.collections ≡ (
              if is_some (find i j t.dirty)
              then find i j t.store.collections
              else find i j s.collections))
apply_changes-Overlay rows t revision s o =
    let (returns, at) =
      apply_changes_lem (entries t.dirty) revision s (entries-IsDistinct t.dirty o.nested) λ i j.
        rw (found-entries i j t.dirty o.nested) (
          mark_clean (find i j rows) (find i j t.store.collections) (find i j t.dirty)
            (o.marked i j)) in
    (
      returns,
      λ i j.
          rw (found-entries i j t.dirty o.nested) at (at i j)
          ∙ mark_row (find i j rows) (find i j t.store.collections) (find i j s.collections)
              (find i j t.dirty) (o.marked i j),
    )

check_reads-found :
    (snapshot : ℕ) (reads : List (Entry (Unit {0}))) (s : MemoryStore) (i j : String)
    → check_reads snapshot reads s ≡ ok tt
    → found i j reads ≡ some tt
    → is_unchanged snapshot (find i j s.revisions.of_rows) ≡ true
unfolding check_reads found
check_reads-found snapshot [] s i j h at = absurd (cc (at))
check_reads-found snapshot ((n, k, read) ∷ reads) s i j h at =
    let (unchanged, h₁) =
      bind_guard (is_unchanged snapshot (find n k s.revisions.of_rows)) conflict
        (check_reads snapshot reads s) h in
    elim (Bool-cases (same_place n k i j)) [
      | inl here ↦
          let (first, second) = same_place-true n k i j here in rw (first, second) at unchanged
      | inr elsewhere ↦ check_reads-found snapshot reads s i j h₁ (rw elsewhere at at)
    ]

seen_unchanged :
    (snapshot : ℕ) (rows : Nested DataValue) (s : MemoryStore) (i j : String)
    → IsSeen snapshot rows s i j
    → is_unchanged snapshot (find i j s.revisions.of_rows) ≡ true
    → find i j s.collections ≡ find i j rows
seen_unchanged snapshot rows s i j (inl kept) h = kept
seen_unchanged snapshot rows s i j (inr (r, at, later)) h =
    absurd (cc (lt→ltb snapshot r later, rw at at h))

module _ (s s₁ s₂ : MemoryStore) (t : Transaction) (runs : Runs s t) where
  -- Whatever other calls and transactions did in between, a commit that succeeds finds every row that was
  -- read by its id as it was when the transaction began, and leaves the rows that the transaction has
  -- changed as the transaction has them, and every other row as it found it.
  pub apply_dirty-serializes :
      Evolves s.revisions.generation (begin s) s₁
      → apply_dirty t.dirty t.point_reads s.revisions.generation s₁ ≡ (s₂, ok tt)
      → (i j : String)
      → (find i j t.point_reads ≡ some tt → find i j s₁.collections ≡ find i j s.collections)
        × (find i j s₂.collections ≡ (
            if is_some (find i j t.dirty)
            then find i j t.store.collections
            else find i j s₁.collections))
  unfolding apply_dirty commit_checks
  apply_dirty-serializes others h i j =
      elim (Result-cases (commit_checks t.dirty t.point_reads s.revisions.generation s₁)) [
        | inr (x, failing) ↦ absurd (cc (ap (λ y. y.1) (rw (failing, apply_dirty) at h)))
        | inl ((u, first), checked) ↦
            let (_, _, h₁) = >>=-eq-ok (check_changes (entries t.dirty) s₁) _ checked in
            let (_, unread, h₂) =
              >>=-eq-ok (check_reads s.revisions.generation (entries t.point_reads) s₁) _ h₁ in
            let same =
              reserve-collections (mutation_count (entries t.dirty) s₁) s₁ {u = u} {first = first}
                h₂ in
            let tracked =
              Evolves-Tracks s.revisions.generation s.collections others (Tracks-begin s) in
            let result = ap (λ y. y.0) (rw (checked, apply_dirty) at h) in
            (
              λ read.
                  seen_unchanged s.revisions.generation s.collections s₁ i j (tracked.seen i j) (
                    check_reads-found s.revisions.generation (entries t.point_reads) s₁ i j unread
                      (found-some i j t.point_reads read)),
              rw (sym result, sym same)
                  ((apply_changes-Overlay s.collections t first u (Runs-IsOverlay s runs)).1 i j),
            )
      ]

  -- A commit that throws leaves the store as it found it, revisions included.
  pub apply_dirty-throw :
      (snapshot : ℕ) {x : ActiveTsError}
      → apply_dirty t.dirty t.point_reads snapshot s₁ ≡ (s₂, throw x)
      → s₂ ≡ s₁
  unfolding apply_dirty
  apply_dirty-throw snapshot h =
      elim (Result-cases (commit_checks t.dirty t.point_reads snapshot s₁)) [
        | inr (x, failing) ↦ ap (λ y. y.0) (sym (rw (failing, apply_dirty) at h))
        | inl ((u, first), checked) ↦
            let returns =
              (apply_changes-Overlay s.collections t first u (Runs-IsOverlay s runs)).0 in
            absurd (cc (returns, ap (λ y. y.1) (rw (checked, apply_dirty) at h)))
      ]
