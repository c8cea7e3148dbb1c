-- ===== src/MemoryStore/Isolation/Inversion.antt =====
-- src/adapters/store/memory.ts: what a call that returns has done to the store.
use active_ts.Prelude.{ℕ, ◌≡◌, not, Option, none, some, List, [], ◌⊎◌, inl, inr, length}
use active_ts.Prelude.Text.{String}
use active_ts.Prelude.Nested.{find}
use active_ts.SafeKeys.{EntityId, assert_safe_schema_identifier}
use active_ts.EntityKey.{entity_id_key}
use active_ts.DataValue.{DataValue}
use active_ts.Errors.{ok, conflict, not_found, >>=-eq-ok, bind_guard, ok-injective}
use active_ts.MemoryStore.Rows.{
  MemoryStore, Model, is_some, prepare_write, reserve_one, set_row, unset_row, create, update,
  delete, delete_found, check_version, check_delete,
}
use active_ts.MemoryStore.Batches.{
  reserve, set_rows, seed, prepare_seed, check_duplicates, check_absent,
}

-- A row is set at a revision that was reserved.
pub record Sets (t u : MemoryStore) : Type 0 where
  pub name : String
  pub key : String
  pub row : DataValue
  pub reserved : MemoryStore × ℕ
  pub got : reserve_one t ≡ ok reserved
  pub is : set_row name key row reserved.1 reserved.0 ≡ u

-- A row is deleted at a revision that was reserved.
pub record Unsets (t u : MemoryStore) : Type 0 where
  pub name : String
  pub key : String
  pub reserved : MemoryStore × ℕ
  pub got : reserve_one t ≡ ok reserved
  pub is : unset_row name key reserved.1 reserved.0 ≡ u

-- Rows are set at revisions that were reserved.
pub record SetsRows (t u : MemoryStore) : Type 0 where
  pub name : String
  pub rows : List (String × DataValue)
  pub reserved : MemoryStore × ℕ
  pub got : reserve (length rows) t ≡ ok reserved
  pub is : set_rows name rows reserved.1 reserved.0 ≡ u

module _ (model : Model) (id : EntityId) (t : MemoryStore) {u : MemoryStore} where
  pub create-Sets : (row : DataValue) → create model id row t ≡ ok u → Sets t u
  unfolding create
  create-Sets row h =
      let (write, _, h₁) = >>=-eq-ok (prepare_write model id row) _ h in
      let (_, h₂) =
        bind_guard (not (is_some (find model.name write.0 t.collections))) conflict _ h₁ in
      let (reserved, got, h₃) = >>=-eq-ok (reserve_one t) _ h₂ in
      record {
        name = model.name;
        key = write.0;
        row = write.1;
        reserved = reserved;
        got = got;
        is = ok-injective h₃;
      }

  pub update-Sets :
      (row : DataValue) (expected : Option ℕ) → update model id row expected t ≡ ok u → Sets t u
  unfolding update
  update-Sets row expected h =
      let (write, _, h₁) = >>=-eq-ok (prepare_write model id row) _ h in
      let current = find model.name write.0 t.collections in
      let (_, h₂) = bind_guard (is_some current) not_found _ h₁ in
      let (_, _, h₃) = >>=-eq-ok (check_version current expected) _ h₂ in
      let (reserved, got, h₄) = >>=-eq-ok (reserve_one t) _ h₃ in
      record {
        name = model.name;
        key = write.0;
        row = write.1;
        reserved = reserved;
        got = got;
        is = ok-injective h₄;
      }

delete_found-Unsets :
    (n k : String) (row : Option DataValue) (t : MemoryStore) {u : MemoryStore}
    → delete_found n k row t ≡ ok u
    → (t ≡ u) ⊎ Unsets t u
unfolding delete_found
delete_found-Unsets n k none t h = inl (ok-injective h)
delete_found-Unsets n k (some row) t h =
    let (reserved, got, h₁) = >>=-eq-ok (reserve_one t) _ h in
    inr (record { name = n; key = k; reserved = reserved; got = got; is = ok-injective h₁ })

pub delete-Unsets :
    (model : Model) (id : EntityId) (expected : Option ℕ) (t : MemoryStore) {u : MemoryStore}
    → delete model id expected t ≡ ok u
    → (t ≡ u) ⊎ Unsets t u
unfolding delete
delete-Unsets model id expected t h =
    let (name, _, h₁) = >>=-eq-ok (assert_safe_schema_identifier model.name) _ h in
    let (key, _, h₂) = >>=-eq-ok (entity_id_key id) _ h₁ in
    let (_, _, h₃) = >>=-eq-ok (check_delete (find name key t.collections) expected) _ h₂ in
    delete_found-Unsets name key (find name key t.collections) t h₃

pub seed-SetsRows :
    (model : Model) (seeds : List DataValue) (t : MemoryStore) {u : MemoryStore}
    → seed model seeds t ≡ ok u
    → SetsRows t u
unfolding seed
seed-SetsRows model seeds t h =
    let (name, _, h₁) = >>=-eq-ok (assert_safe_schema_identifier model.name) _ h in
    let (prepared, _, h₂) = >>=-eq-ok (prepare_seed model seeds) _ h₁ in
    let (_, _, h₃) = >>=-eq-ok (check_duplicates [] prepared) _ h₂ in
    let (_, _, h₄) = >>=-eq-ok (check_absent name t.collections prepared) _ h₃ in
    let (reserved, got, h₅) = >>=-eq-ok (reserve (length prepared) t) _ h₄ in
    record { name = name; rows = prepared; reserved = reserved; got = got; is = ok-injective h₅ }
