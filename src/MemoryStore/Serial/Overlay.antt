-- ===== src/MemoryStore/Serial/Overlay.antt =====
-- src/adapters/store/memory.ts: the changes that a transaction marks are those that its rows have.
use active_ts.Prelude.{
  ℕ, ◌≡◌, refl, ap, sym, Bool, List, Option, none, some, if◌then◌else◌, Bool-cases, inl, inr,
}
use active_ts.Prelude.Text.{String}
use active_ts.Prelude.Nested.{
  Nested, find, put, same_place, same_place-true, find-put, IsNested, put-IsNested,
}
use active_ts.Prelude.Assoc.{lookup}
use active_ts.SafeKeys.{EntityId, assert_safe_entity_id_array}
use active_ts.EntityKey.{entity_id_key}
use active_ts.DataValue.{DataValue}
use active_ts.Errors.{ok, >>=-eq-ok, ok-injective}
use active_ts.MemoryStore.Rows.{
  MemoryStore, Model, is_some, prepare_write, create, update, delete, get, get_many,
}
use active_ts.MemoryStore.Commit.{DirtyChange}
use active_ts.MemoryStore.Transaction.{
  Transaction, start, created, updated, mark_create, mark_update, mark_delete, tx_get, tx_get_many,
  record_reads, tx_create, tx_update, tx_delete, restore, Runs, starts, gets, gets_many,
  creates_row, updates_row, deletes_row, rolls_back,
}
use active_ts.MemoryStore.Serial.Prepared.{
  prepare_write_idem, create-collections, update-collections, delete-find,
}
use active_ts.MemoryStore.Serial.Places.{
  Overlaid, created-Overlaid, updated-Overlaid, deleted-Overlaid, deleted_mark, find-mark_delete,
  mark_delete-IsNested,
}

-- The marked changes stand in one place each, and turn the rows at the start into those of the transaction.
pub record IsOverlay (rows : Nested DataValue) (t : Transaction) : Type 0 where
  pub nested : IsNested t.dirty
  pub marked :
      (i j : String) → Overlaid (find i j rows) (find i j t.store.collections) (find i j t.dirty)

module _ (rows after after' : Nested DataValue) (dirty dirty' : Nested DirtyChange)
    (n k : String) where
  -- A change at one place.
  overlay_at :
      (new : Option DataValue) (mark : Option DirtyChange) (i j : String)
      → find i j after' ≡ (if same_place n k i j then new else find i j after)
      → find i j dirty' ≡ (if same_place n k i j then mark else find i j dirty)
      → Overlaid (find n k rows) new mark
      → Overlaid (find i j rows) (find i j after) (find i j dirty)
      → Overlaid (find i j rows) (find i j after') (find i j dirty')
  overlay_at new mark i j at at_dirty here_is h =
      rw (at, at_dirty)
        (elim (Bool-cases (same_place n k i j)) [
          | inl here ↦
              let (first, second) = same_place-true n k i j here in
              rw (here, sym first, sym second) here_is
          | inr elsewhere ↦ rw elsewhere h
        ])

module _ (rows : Nested DataValue) (t : Transaction) {u : Transaction}
    (before : IsOverlay rows t) where
  tx_create-IsOverlay :
      (model : Model) (id : EntityId) (row : DataValue)
      → tx_create model id row t ≡ ok u
      → IsOverlay rows u
  unfolding tx_create mark_create
  tx_create-IsOverlay model id row h =
      let (write, w, h₁) = >>=-eq-ok (prepare_write model id row) _ h in
      let (store, made, h₂) = >>=-eq-ok (create model id write.1 t.store) _ h₁ in
      let (again, clean) = prepare_write_idem model id row {key = write.0} {clean = write.1} w in
      let (absent, is) = create-collections model id t.store write.1 again made in
      rw (sym (ok-injective h₂)) (record {
        nested =
            put-IsNested model.name write.0 (created write.1 (find model.name write.0 t.dirty))
              t.dirty before.nested;
        marked = λ i j.
            overlay_at rows t.store.collections store.collections t.dirty
              (put model.name write.0 (created write.1 (find model.name write.0 t.dirty)) t.dirty)
              model.name write.0 (some write.1)
              (some (created write.1 (find model.name write.0 t.dirty))) i j
              (rw is (find-put model.name write.0 write.1 t.store.collections i j))
              (find-put model.name write.0 (created write.1 (find model.name write.0 t.dirty))
                t.dirty i j)
              (created-Overlaid (find model.name write.0 rows) write.1
                (find model.name write.0 t.dirty) clean
                (rw absent at (before.marked model.name write.0)))
              (before.marked i j);
      })

  tx_update-IsOverlay :
      (model : Model) (id : EntityId) (row : DataValue) (expected : Option ℕ)
      → tx_update model id row expected t ≡ ok u
      → IsOverlay rows u
  unfolding tx_update mark_update
  tx_update-IsOverlay model id row expected h =
      let (write, w, h₁) = >>=-eq-ok (prepare_write model id row) _ h in
      let (store, made, h₂) = >>=-eq-ok (update model id write.1 expected t.store) _ h₁ in
      let (again, clean) = prepare_write_idem model id row {key = write.0} {clean = write.1} w in
      let (there, version, is) = update-collections model id t.store write.1 expected again made in
      let mark : DirtyChange = updated write.1 expected (find model.name write.0 t.dirty) in
      rw (sym (ok-injective h₂)) (record {
        nested = put-IsNested model.name write.0 mark t.dirty before.nested;
        marked = λ i j.
            overlay_at rows t.store.collections store.collections t.dirty
              (put model.name write.0 mark t.dirty) model.name write.0 (some write.1) (some mark) i
              j (rw is (find-put model.name write.0 write.1 t.store.collections i j))
              (find-put model.name write.0 mark t.dirty i j)
              (updated-Overlaid (find model.name write.0 rows) write.1 expected
                (find model.name write.0 t.store.collections) (find model.name write.0 t.dirty)
                clean there version (before.marked model.name write.0))
              (before.marked i j);
      })

  tx_delete-IsOverlay :
      (model : Model) (id : EntityId) (expected : Option ℕ)
      → tx_delete model id expected t ≡ ok u
      → IsOverlay rows u
  unfolding tx_delete
  tx_delete-IsOverlay model id expected h =
      let (key, keyed, h₁) = >>=-eq-ok (entity_id_key id) _ h in
      let (store, made, h₂) = >>=-eq-ok (delete model id expected t.store) _ h₁ in
      let (checked, is) = delete-find model id expected t.store keyed made in
      let existed : Bool = is_some (find model.name key t.store.collections) in
      rw (sym (ok-injective h₂)) (record {
        nested = mark_delete-IsNested model.name key existed expected t.dirty before.nested;
        marked = λ i j.
            overlay_at rows t.store.collections store.collections t.dirty
              (mark_delete model.name key existed expected t.dirty) model.name key none
              (deleted_mark existed expected (find model.name key t.dirty)) i j (is i j)
              (find-mark_delete model.name key existed expected t.dirty i j)
              (deleted-Overlaid (find model.name key rows) expected
                (find model.name key t.store.collections) (find model.name key t.dirty) checked
                (before.marked model.name key))
              (before.marked i j);
      })

  tx_get-IsOverlay :
      (model : Model) (id : EntityId) {row : Option DataValue}
      → tx_get model id t ≡ ok (u, row)
      → IsOverlay rows u
  unfolding tx_get
  tx_get-IsOverlay model id h =
      let (found, got, h₁) = >>=-eq-ok (get model id t.store) _ h in
      let (key, keyed, h₂) = >>=-eq-ok (entity_id_key id) _ h₁ in
      rw (sym (ap (λ y. y.0) (ok-injective h₂)))
        (record { nested = before.nested; marked = before.marked })

tx_get_many-IsOverlay :
    (rows : Nested DataValue) (t : Transaction) {u : Transaction} {found : List (Option DataValue)}
    (model : Model) (ids : List EntityId)
    → IsOverlay rows t
    → tx_get_many model ids t ≡ ok (u, found)
    → IsOverlay rows u
unfolding tx_get_many
tx_get_many-IsOverlay rows t model ids before h =
    let (safe_ids, _, h₁) = >>=-eq-ok (assert_safe_entity_id_array ids) _ h in
    let (got, _, h₂) = >>=-eq-ok (get_many model safe_ids t.store) _ h₁ in
    let (reads, _, h₃) = >>=-eq-ok (record_reads model.name safe_ids t.point_reads) _ h₂ in
    rw (sym (ap (λ y. y.0) (ok-injective h₃)))
      (record { nested = before.nested; marked = before.marked })

pub Runs-IsOverlay : (s : MemoryStore) {t : Transaction} → Runs s t → IsOverlay s.collections t
unfolding start restore find lookup
Runs-IsOverlay s starts = record { nested = tt; marked = λ i j. refl }
Runs-IsOverlay s (gets model id r h) =
    tx_get-IsOverlay s.collections _ (Runs-IsOverlay s r) model id h
Runs-IsOverlay s (gets_many model ids r h) =
    tx_get_many-IsOverlay s.collections _ model ids (Runs-IsOverlay s r) h
Runs-IsOverlay s (creates_row model id row r h) =
    tx_create-IsOverlay s.collections _ (Runs-IsOverlay s r) model id row h
Runs-IsOverlay s (updates_row model id row expected r h) =
    tx_update-IsOverlay s.collections _ (Runs-IsOverlay s r) model id row expected h
Runs-IsOverlay s (deletes_row model id expected r h) =
    tx_delete-IsOverlay s.collections _ (Runs-IsOverlay s r) model id expected h
Runs-IsOverlay s (rolls_back r q) =
    let checkpoint = Runs-IsOverlay s r in
    record { nested = checkpoint.nested; marked = checkpoint.marked }
