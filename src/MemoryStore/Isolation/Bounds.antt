-- ===== src/MemoryStore/Isolation/Bounds.antt =====
-- src/adapters/store/memory.ts: no row has a revision after the generation of the store.
use active_ts.Prelude.{
  ℕ, ◌+◌, ◌≤◌, ◌≡◌, ap, sym, Bool, true, false, Option, some, List, [], ◌∷◌, inl, inr, arith,
  Bool-cases, ltb, leb, ◌&&◌,
}
use active_ts.Prelude.Text.{String}
use active_ts.Prelude.Nested.{Nested, find, put, drop_tidy, same_place, find-put, find-drop_tidy}
use active_ts.DataValue.{DataValue}
use active_ts.Errors.{ok, configuration, bind_guard, ok-injective}
use active_ts.MemoryStore.Revisions.{
  Revisions, max_row_revision, reserve_row_revisions, has_snapshot_before, record_row_revision,
  is_revision, is_obsolete, forget_revision, compact_entries, compact_names,
}
use active_ts.MemoryStore.Rows.{MemoryStore, set_row, unset_row}
use active_ts.MemoryStore.Isolation.Compaction.{record_row_revision-snapshots}

module _ (bound : ℕ) where
  abbrev pub IsBelow : Nested ℕ → Type 0
  IsBelow rows = (i j : String) (r : ℕ) → find i j rows ≡ some r → r ≤ bound

  put-IsBelow :
      (n k : String) (revision : ℕ) (rows : Nested ℕ)
      → revision ≤ bound
      → IsBelow rows
      → IsBelow (put n k revision rows)
  put-IsBelow n k revision rows le below i j r h = elim (Bool-cases (same_place n k i j)) [
    | inl here ↦
        let same : some revision ≡ some r = rw (find-put n k revision rows i j, here) at h in
        ground (arith)
    | inr elsewhere ↦ below i j r (rw (find-put n k revision rows i j, elsewhere) at h)
  ]

  drop_tidy-IsBelow : (n k : String) (rows : Nested ℕ) → IsBelow rows → IsBelow (drop_tidy n k rows)
  drop_tidy-IsBelow n k rows below i j r h = elim (Bool-cases (same_place n k i j)) [
    | inl here ↦ absurd (cc (rw (find-drop_tidy n k rows i j, here) at h))
    | inr elsewhere ↦ below i j r (rw (find-drop_tidy n k rows i j, elsewhere) at h)
  ]

  pub record_row_revision-IsBelow :
      (n k : String) (revision : ℕ) (row_exists : Bool) (r : Revisions)
      → revision ≤ bound
      → IsBelow r.of_rows
      → IsBelow (record_row_revision n k revision row_exists r).of_rows
  unfolding record_row_revision
  record_row_revision-IsBelow n k revision true r le below =
      put-IsBelow n k revision r.of_rows le below
  record_row_revision-IsBelow n k revision false r le below =
      elim (Bool-cases (has_snapshot_before revision r.snapshots)) [
        | inl kept ↦ rw (kept, record_row_revision) (put-IsBelow n k revision r.of_rows le below)
        | inr gone ↦
            rw (gone, record_row_revision)
              (drop_tidy-IsBelow n k (put n k revision r.of_rows)
                (put-IsBelow n k revision r.of_rows le below))
      ]

  forget_revision-IsBelow :
      (n k : String) (revision : ℕ) (rows : Nested ℕ)
      → IsBelow rows
      → IsBelow (forget_revision n k revision rows)
  unfolding forget_revision
  forget_revision-IsBelow n k revision rows below =
      elim (Bool-cases (is_revision revision (find n k rows))) [
        | inl same ↦ rw (same, forget_revision) (drop_tidy-IsBelow n k rows below)
        | inr other ↦ rw (other, forget_revision) below
      ]

  compact_entries-IsBelow :
      (oldest : Option ℕ) (n : String) (ts : List (String × ℕ)) (rows : Nested ℕ)
      → IsBelow rows
      → IsBelow (compact_entries oldest n ts rows).1
  unfolding compact_entries
  compact_entries-IsBelow oldest n [] rows below = below
  compact_entries-IsBelow oldest n ((k, revision) ∷ ts) rows below =
      elim (Bool-cases (is_obsolete oldest revision)) [
        | inl obsolete ↦
            rw (obsolete, compact_entries)
              (compact_entries-IsBelow oldest n ts (forget_revision n k revision rows)
                (forget_revision-IsBelow n k revision rows below))
        | inr needed ↦ rw (needed, compact_entries) (compact_entries-IsBelow oldest n ts rows below)
      ]

  pub compact_names-IsBelow :
      (oldest : Option ℕ) (ts : Nested ℕ) (rows : Nested ℕ)
      → IsBelow rows
      → IsBelow (compact_names oldest ts rows).1
  unfolding compact_names
  compact_names-IsBelow oldest [] rows below = below
  compact_names-IsBelow oldest ((n, entries) ∷ ts) rows below =
      compact_names-IsBelow oldest ts (compact_entries oldest n entries rows).1
        (compact_entries-IsBelow oldest n entries rows below)

-- No row has a revision after the generation of the store.
abbrev pub IsRevised : MemoryStore → Type 0
IsRevised s = IsBelow s.revisions.generation s.revisions.of_rows

IsBelow-le : (a b : ℕ) (rows : Nested ℕ) → a ≤ b → IsBelow a rows → IsBelow b rows
IsBelow-le a b rows le below i j r h = omega (arith, below i j r h, le)

pub set_row-IsRevised :
    (n k : String) (row : DataValue) (revision : ℕ) (t : MemoryStore)
    → revision ≤ t.revisions.generation
    → IsRevised t
    → IsRevised (set_row n k row revision t)
unfolding set_row
set_row-IsRevised n k row revision t le below =
    rw (record_row_revision-snapshots n k revision true t.revisions).1
      (record_row_revision-IsBelow t.revisions.generation n k revision true t.revisions le below)

pub unset_row-IsRevised :
    (n k : String) (revision : ℕ) (t : MemoryStore)
    → revision ≤ t.revisions.generation
    → IsRevised t
    → IsRevised (unset_row n k revision t)
unfolding unset_row
unset_row-IsRevised n k revision t le below =
    rw (record_row_revision-snapshots n k revision false t.revisions).1
      (record_row_revision-IsBelow t.revisions.generation n k revision false t.revisions le below)

pub reserve_row_revisions-IsRevised :
    (count : ℕ) (t : MemoryStore) {r : Revisions} {first : ℕ}
    → IsRevised t
    → reserve_row_revisions count t.revisions ≡ ok (r, first)
    → IsRevised (record t { revisions = r }) × (first + count ≤ r.generation + 1)
unfolding reserve_row_revisions
reserve_row_revisions-IsRevised count t {r} {first} below h =
    let (_, h₁) =
      bind_guard (ltb 0 count && leb (t.revisions.generation + count) max_row_revision)
        configuration _ h in
    let first_is : t.revisions.generation + 1 ≡ first = ap (λ y. y.1) (ok-injective h₁) in
    let r_is : record t.revisions { generation = t.revisions.generation + count } ≡ r =
      ap (λ y. y.0) (ok-injective h₁) in
    let generation : t.revisions.generation + count ≡ r.generation =
      ap (λ (y : Revisions). y.generation) r_is in
    (
      rw (sym r_is) (
          IsBelow-le t.revisions.generation (t.revisions.generation + count) t.revisions.of_rows
            (omega arith) below),
      omega (arith, first_is, generation),
    )
