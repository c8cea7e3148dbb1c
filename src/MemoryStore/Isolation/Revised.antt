-- ===== src/MemoryStore/Isolation/Revised.antt =====
-- src/adapters/store/memory.ts: every call keeps the revisions of the rows within the generation.
use active_ts.Prelude.{ℕ, ◌⊎◌, ◌+◌, ◌≤◌, ◌≡◌, ap, sym, inl, inr, arith, Bool-cases, ◌==◌, ==_iff}
use active_ts.Errors.{ok, >>=-eq-ok, ok-injective}
use active_ts.MemoryStore.Revisions.{reserve_row_revisions}
use active_ts.MemoryStore.Rows.{MemoryStore, reserve_one}
use active_ts.MemoryStore.Batches.{reserve}
use active_ts.MemoryStore.Isolation.Bounds.{
  IsRevised, set_row-IsRevised, unset_row-IsRevised, reserve_row_revisions-IsRevised,
}
use active_ts.MemoryStore.Isolation.Inversion.{Sets, Unsets}

pub reserve-IsRevised :
    (count : ℕ) (t : MemoryStore) {u : MemoryStore} {first : ℕ}
    → IsRevised t
    → reserve count t ≡ ok (u, first)
    → IsRevised u × (first + count ≤ u.revisions.generation + 1)
unfolding reserve
reserve-IsRevised count t {u} {first} below h = elim (Bool-cases (count == 0)) [
  | inl nothing ↦
      let h₀ = ok-injective (rw (nothing, reserve) at h) in
      let same : t ≡ u = ap (λ y. y.0) h₀ in
      let zero_first : 0 ≡ first = ap (λ y. y.1) h₀ in
      (rw (sym same) below, omega (arith, zero_first, (==_iff count 0).0 nothing))
  | inr some_rows ↦
      let (reserved, got, h₁) =
        >>=-eq-ok (reserve_row_revisions count t.revisions) _ (rw (some_rows, reserve) at h) in
      let (kept, room) = reserve_row_revisions-IsRevised count t below got in
      let same : record t { revisions = reserved.0 } ≡ u = ap (λ y. y.0) (ok-injective h₁) in
      (rw (sym same) kept, rw (sym same, sym (ap (λ y. y.1) (ok-injective h₁))) room)
]

reserve_one-IsRevised :
    (t : MemoryStore) {u : MemoryStore} {first : ℕ}
    → IsRevised t
    → reserve_one t ≡ ok (u, first)
    → IsRevised u × (first ≤ u.revisions.generation)
unfolding reserve_one
reserve_one-IsRevised t {u} {first} below h =
    let (reserved, got, h₁) = >>=-eq-ok (reserve_row_revisions 1 t.revisions) _ h in
    let (kept, room) = reserve_row_revisions-IsRevised 1 t below got in
    let same : record t { revisions = reserved.0 } ≡ u = ap (λ y. y.0) (ok-injective h₁) in
    let le : reserved.1 ≤ reserved.0.generation = omega (arith, room) in
    (rw (sym same) kept, rw (sym same, sym (ap (λ y. y.1) (ok-injective h₁))) le)

module _ {t u : MemoryStore} where
  pub Sets-IsRevised : Sets t u → IsRevised t → IsRevised u
  Sets-IsRevised set below =
      let (kept, le) =
        reserve_one-IsRevised t {u = set.reserved.0} {first = set.reserved.1} below set.got in
      rw (sym set.is)
        (set_row-IsRevised set.name set.key set.row set.reserved.1 set.reserved.0 le kept)

  pub Unsets-IsRevised : (t ≡ u) ⊎ Unsets t u → IsRevised t → IsRevised u
  Unsets-IsRevised (inl same) below = rw (sym same) below
  Unsets-IsRevised (inr unset) below =
      let (kept, le) =
        reserve_one-IsRevised t {u = unset.reserved.0} {first = unset.reserved.1} below unset.got in
      rw (sym unset.is)
        (unset_row-IsRevised unset.name unset.key unset.reserved.1 unset.reserved.0 le kept)
