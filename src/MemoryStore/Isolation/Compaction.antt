-- ===== src/MemoryStore/Isolation/Compaction.antt =====
-- src/adapters/store/memory.ts: the revisions that a running transaction may ask for outlive the compaction of
-- tombstones.
use active_ts.Prelude.{
  ℕ, ◌+◌, ◌-◌, ◌≤◌, ◌<◌, ◌≡◌, refl, ◌∙◌, Bool, true, false, Option, none, some, List, [], ◌∷◌, ltb,
  leb, ◌==◌, inl, inr, arith, if◌then◌else◌, Bool-cases,
}
use active_ts.Prelude.Text.{String}
use active_ts.Prelude.Nested.{Nested, find, same_place, same_place-true, find-put, find-drop_tidy}
use active_ts.MemoryStore.Revisions.{
  Revisions, has_snapshot_before, record_row_revision, snapshot_count, set_snapshot,
  delete_snapshot, oldest_snapshot, min_snapshot, is_revision, forget_revision, compact_entries,
  compact_names, compact_row_revision_tombstones, end_snapshot,
}

-- Some running transaction has the snapshot.
abbrev pub IsActive : ℕ → List (ℕ × ℕ) → Type 0
IsActive s snapshots = 1 ≤ snapshot_count s snapshots

has_snapshot_before-IsActive :
    (s revision : ℕ) (snapshots : List (ℕ × ℕ))
    → IsActive s snapshots
    → s < revision
    → has_snapshot_before revision snapshots ≡ true
unfolding has_snapshot_before snapshot_count
has_snapshot_before-IsActive s revision [] a h = absurd (omega arith)
has_snapshot_before-IsActive s revision ((t, count) ∷ rest) a h =
    ground (arith, has_snapshot_before-IsActive s revision rest)

min_snapshot-cases :
    (t : ℕ) (o : Option ℕ)
    → (m : ℕ) × (min_snapshot t o ≡ some m) × (m ≤ t) × ((p : ℕ) → o ≡ some p → m ≤ p)
min_snapshot-cases t none = (t, refl, omega arith, λ p h. absurd (cc h))
min_snapshot-cases t (some u) = elim (Bool-cases (ltb t u)) [
  | inl earlier ↦ (t, rw earlier refl, omega arith, λ p h. ground (arith, earlier, h))
  | inr later ↦ (u, rw later refl, ground (arith, later), λ p h. ground (arith, h))
]

-- The oldest snapshot is no later than an active one.
oldest_snapshot-IsActive :
    (s : ℕ) (snapshots : List (ℕ × ℕ))
    → IsActive s snapshots
    → (o : ℕ) × (oldest_snapshot snapshots ≡ some o) × (o ≤ s)
unfolding oldest_snapshot snapshot_count
oldest_snapshot-IsActive s [] a = absurd (omega arith)
oldest_snapshot-IsActive s ((t, count) ∷ rest) a =
    let (m, at, below_t, below) = min_snapshot-cases t (oldest_snapshot rest) in
    elim (Bool-cases (t == s)) [
      | inl same ↦ (m, at, ground (arith, same, below_t))
      | inr other ↦
          let (o, older, below_s) = oldest_snapshot-IsActive s rest (rw other at a) in
          (m, at, omega (arith, below o older, below_s))
    ]

not_later : (revision r : ℕ) → revision < r → is_revision revision (some r) ≡ true → ⊥
not_later revision r later same = ground (arith, later, same)

forget_revision-later :
    (n k : String) (revision : ℕ) (rows : Nested ℕ) (i j : String) (r : ℕ)
    → revision < r
    → find i j rows ≡ some r
    → find i j (forget_revision n k revision rows) ≡ some r
unfolding forget_revision
forget_revision-later n k revision rows i j r later at =
    elim (Bool-cases (is_revision revision (find n k rows))) [
      | inr other ↦ rw (other, forget_revision) at
      | inl same ↦
          rw (same, forget_revision)
            (find-drop_tidy n k rows i j ∙ elim (Bool-cases (same_place n k i j)) [
              | inr elsewhere ↦ rw elsewhere at
              | inl here ↦
                  let (names, keys) = same_place-true n k i j here in
                  absurd (not_later revision r later (rw (names, keys, at) at same))
            ])
    ]

compact_entries-later :
    (o : ℕ) (n : String) (ts : List (String × ℕ)) (rows : Nested ℕ) (i j : String) (r : ℕ)
    → o < r
    → find i j rows ≡ some r
    → find i j (compact_entries (some o) n ts rows).1 ≡ some r
unfolding compact_entries
compact_entries-later o n [] rows i j r later at = at
compact_entries-later o n ((k, revision) ∷ ts) rows i j r later at =
    elim (Bool-cases (leb revision o)) [
      | inl obsolete ↦
          rw (obsolete, compact_entries)
            (compact_entries-later o n ts (forget_revision n k revision rows) i j r later
              (forget_revision-later n k revision rows i j r (ground (arith, obsolete)) at))
      | inr needed ↦ rw (needed, compact_entries) (compact_entries-later o n ts rows i j r later at)
    ]

compact_names-later :
    (o : ℕ) (ts : Nested ℕ) (rows : Nested ℕ) (i j : String) (r : ℕ)
    → o < r
    → find i j rows ≡ some r
    → find i j (compact_names (some o) ts rows).1 ≡ some r
unfolding compact_names
compact_names-later o [] rows i j r later at = at
compact_names-later o ((n, entries) ∷ ts) rows i j r later at =
    compact_names-later o ts (compact_entries (some o) n entries rows).1 i j r later
      (compact_entries-later o n entries rows i j r later at)

-- What is later than an active snapshot is kept.
pub compact_row_revision_tombstones-later :
    (s : ℕ) (r : Revisions) (i j : String) (revision : ℕ)
    → IsActive s r.snapshots
    → s < revision
    → find i j r.of_rows ≡ some revision
    → find i j (compact_row_revision_tombstones r).of_rows ≡ some revision
unfolding compact_row_revision_tombstones
compact_row_revision_tombstones-later s r i j revision a later at =
    let (o, oldest, below) = oldest_snapshot-IsActive s r.snapshots a in
    rw (oldest, compact_row_revision_tombstones)
      (compact_names-later o r.tombstones r.of_rows i j revision (omega (arith, below, later)) at)

snapshot_count-set :
    (t n s : ℕ) (snapshots : List (ℕ × ℕ))
    → snapshot_count s (set_snapshot t n snapshots)
      ≡ (if t == s then n else snapshot_count s snapshots)
unfolding snapshot_count set_snapshot
snapshot_count-set t n s [] = refl
snapshot_count-set t n s ((u, count) ∷ rest) = ground (arith, snapshot_count-set t n s rest)

snapshot_count-delete :
    (t s : ℕ) (snapshots : List (ℕ × ℕ))
    → snapshot_count s (delete_snapshot t snapshots)
      ≡ (if t == s then 0 else snapshot_count s snapshots)
unfolding snapshot_count delete_snapshot
snapshot_count-delete t s [] = ground arith
snapshot_count-delete t s ((u, count) ∷ rest) = ground (arith, snapshot_count-delete t s rest)

-- A snapshot stays active when another transaction ends.
pub end_snapshot-IsActive :
    (s t : ℕ) (snapshots : List (ℕ × ℕ))
    → (t ≡ s → 2 ≤ snapshot_count s snapshots)
    → IsActive s snapshots
    → IsActive s (end_snapshot t snapshots)
unfolding end_snapshot
end_snapshot-IsActive s t snapshots shared a = ground (
  arith,
  snapshot_count-delete t s snapshots,
  snapshot_count-set t (snapshot_count t snapshots - 1) s snapshots,
  shared,
)

pub set_snapshot-IsActive :
    (s t : ℕ) (snapshots : List (ℕ × ℕ))
    → IsActive s snapshots
    → IsActive s (set_snapshot t (snapshot_count t snapshots + 1) snapshots)
set_snapshot-IsActive s t snapshots a =
    ground (arith, snapshot_count-set t (snapshot_count t snapshots + 1) s snapshots)

pub set_snapshot-begun :
    (s : ℕ) (snapshots : List (ℕ × ℕ))
    → IsActive s (set_snapshot s (snapshot_count s snapshots + 1) snapshots)
set_snapshot-begun s snapshots =
    ground (arith, snapshot_count-set s (snapshot_count s snapshots + 1) s snapshots)

-- The revisions of rows after a write behind an active snapshot, deletions included.
pub record_row_revision-find :
    (s : ℕ) (n k : String) (revision : ℕ) (row_exists : Bool) (r : Revisions) (i j : String)
    → IsActive s r.snapshots
    → s < revision
    → find i j (record_row_revision n k revision row_exists r).of_rows
      ≡ (if same_place n k i j then some revision else find i j r.of_rows)
unfolding record_row_revision
record_row_revision-find s n k revision true r i j a later = find-put n k revision r.of_rows i j
record_row_revision-find s n k revision false r i j a later =
    rw (has_snapshot_before-IsActive s revision r.snapshots a later, record_row_revision)
      (find-put n k revision r.of_rows i j)

pub record_row_revision-snapshots :
    (n k : String) (revision : ℕ) (row_exists : Bool) (r : Revisions)
    → ((record_row_revision n k revision row_exists r).snapshots ≡ r.snapshots)
      × ((record_row_revision n k revision row_exists r).generation ≡ r.generation)
unfolding record_row_revision
record_row_revision-snapshots n k revision true r = (refl, refl)
record_row_revision-snapshots n k revision false r =
    elim (Bool-cases (has_snapshot_before revision r.snapshots)) [
      | inl kept ↦ rw (kept, record_row_revision) (refl, refl)
      | inr gone ↦ rw (gone, record_row_revision) (refl, refl)
    ]

pub compact_row_revision_tombstones-snapshots :
    (r : Revisions)
    → ((compact_row_revision_tombstones r).snapshots ≡ r.snapshots)
      × ((compact_row_revision_tombstones r).generation ≡ r.generation)
unfolding compact_row_revision_tombstones
compact_row_revision_tombstones-snapshots r = (refl, refl)
