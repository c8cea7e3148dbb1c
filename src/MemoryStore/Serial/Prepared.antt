-- ===== src/MemoryStore/Serial/Prepared.antt =====
-- src/adapters/store/memory.ts: data that is checked again passes as it is, and what writes do to the rows.
use active_ts.Prelude.{
  ℕ, ◌≡◌, refl, ◌∙◌, ap, sym, true, not, Option, none, some, arith, if◌then◌else◌,
}
use active_ts.Prelude.Text.{String}
use active_ts.Prelude.Nested.{Nested, find, put, same_place, find-drop_entry, find-same_place}
use active_ts.SafeKeys.{EntityId, assert_safe_schema_identifier}
use active_ts.EntityKey.{entity_id_key}
use active_ts.DataValue.{
  DataValue, prune, clone_portable_data, clone_safe_data, clone_portable_data_idem,
}
use active_ts.Errors.{ok, validation, conflict, not_found, >>=-eq-ok, bind_guard, ok-injective}
use active_ts.MemoryStore.Revisions.{reserve_row_revisions}
use active_ts.MemoryStore.Rows.{
  MemoryStore, Model, is_some, is_object, clone_portable_data_object, assert_store_data_matches_id,
  prepare_write, check_version, check_delete, create, update, delete, delete_found, reserve_one,
  set_row, unset_row,
}

is_object-prune : (v : DataValue) → is_object v ≡ true → is_object (prune v) ≡ true
unfolding prune
is_object-prune (DataValue.object fields) h = refl
is_object-prune v h = h

pub prepare_write_idem :
    (model : Model) (id : EntityId) (row : DataValue) {key : String} {clean : DataValue}
    → prepare_write model id row ≡ ok (key, clean)
    → (prepare_write model id clean ≡ ok (key, clean)) × (clone_safe_data clean ≡ ok clean)
unfolding prepare_write clone_portable_data_object
prepare_write_idem model id row {key} {clean} h =
    let (c, cloned, h₁) = >>=-eq-ok (clone_portable_data_object row) _ h in
    let (object, portable) =
      bind_guard (is_object row) validation (clone_portable_data row) cloned in
    let (_, matches, h₂) = >>=-eq-ok (assert_store_data_matches_id model id c) _ h₁ in
    let (name, named, h₃) = >>=-eq-ok (assert_safe_schema_identifier model.name) _ h₂ in
    let (k, keyed, h₄) = >>=-eq-ok (entity_id_key id) _ h₃ in
    let (again, safe, pruned) = clone_portable_data_idem row portable in
    let same : c ≡ clean = ap (λ y. y.1) (ok-injective h₄) in
    let is : is_object c ≡ true = rw pruned (is_object-prune row object) in
    (
      rw (sym same, is, again, matches, named, keyed)
          (ap (λ (y : String × DataValue). ok (y.0, c)) (ok-injective h₄)),
      rw (sym same) safe,
    )

reserve_one-collections :
    (s : MemoryStore) {u : MemoryStore} {first : ℕ}
    → reserve_one s ≡ ok (u, first)
    → u.collections ≡ s.collections
unfolding reserve_one
reserve_one-collections s h =
    let (reserved, got, h₁) = >>=-eq-ok (reserve_row_revisions 1 s.revisions) _ h in
    ap (λ (y : MemoryStore × ℕ). y.0.collections) (sym (ok-injective h₁))

none_of_not : (o : Option DataValue) → not (is_some o) ≡ true → o ≡ none
none_of_not none h = refl
none_of_not (some row) h = cc

assert_safe_schema_identifier-same :
    (name : String) {found : String} → assert_safe_schema_identifier name ≡ ok found → found ≡ name
unfolding assert_safe_schema_identifier
assert_safe_schema_identifier-same name h = ground arith

module _ (model : Model) (id : EntityId) (s : MemoryStore) {u : MemoryStore} where
  pub create-collections :
      (row : DataValue) {key : String} {clean : DataValue}
      → prepare_write model id row ≡ ok (key, clean)
      → create model id row s ≡ ok u
      → (find model.name key s.collections ≡ none)
        × (u.collections ≡ put model.name key clean s.collections)
  unfolding create set_row
  create-collections row {key} {clean} prepared h =
      let h₁ = rw prepared at h in
      let (absent, h₂) =
        bind_guard (not (is_some (find model.name key s.collections))) conflict _ h₁ in
      let (reserved, got, h₃) = >>=-eq-ok (reserve_one s) _ h₂ in
      (
        none_of_not (find model.name key s.collections) absent,
        ap (λ (y : MemoryStore). y.collections) (sym (ok-injective h₃))
            ∙ ap (put model.name key clean) (reserve_one-collections s got),
      )

  pub update-collections :
      (row : DataValue) (expected : Option ℕ) {key : String} {clean : DataValue}
      → prepare_write model id row ≡ ok (key, clean)
      → update model id row expected s ≡ ok u
      → (is_some (find model.name key s.collections) ≡ true)
        × (check_version (find model.name key s.collections) expected ≡ ok tt)
        × (u.collections ≡ put model.name key clean s.collections)
  unfolding update set_row
  update-collections row expected {key} {clean} prepared h =
      let h₁ = rw prepared at h in
      let (present, h₂) = bind_guard (is_some (find model.name key s.collections)) not_found _ h₁ in
      let (_, version, h₃) =
        >>=-eq-ok (check_version (find model.name key s.collections) expected) _ h₂ in
      let (reserved, got, h₄) = >>=-eq-ok (reserve_one s) _ h₃ in
      (
        present,
        version,
        ap (λ (y : MemoryStore). y.collections) (sym (ok-injective h₄))
            ∙ ap (put model.name key clean) (reserve_one-collections s got),
      )

-- What is deleted is the entry of the row, if there is one.
delete_found-find :
    (n k : String) (row : Option DataValue) (s : MemoryStore) {u : MemoryStore}
    → delete_found n k row s ≡ ok u
    → find n k s.collections ≡ row
    → (i j : String)
    → find i j u.collections ≡ (if same_place n k i j then none else find i j s.collections)
unfolding delete_found unset_row
delete_found-find n k none s h at i j =
    ap (λ (y : MemoryStore). find i j y.collections) (sym (ok-injective h))
    ∙ rw at at (sym (find-same_place n k s.collections i j))
delete_found-find n k (some row) s h at i j =
    let (reserved, got, h₁) = >>=-eq-ok (reserve_one s) _ h in
    ap (λ (y : MemoryStore). find i j y.collections) (sym (ok-injective h₁))
    ∙ find-drop_entry n k reserved.0.collections i j
    ∙ ap (λ (m : Nested DataValue). if same_place n k i j then none else find i j m)
        (reserve_one-collections s got)

pub delete-find :
    (model : Model) (id : EntityId) (expected : Option ℕ) (s : MemoryStore) {u : MemoryStore}
    {key : String}
    → entity_id_key id ≡ ok key
    → delete model id expected s ≡ ok u
    → (check_delete (find model.name key s.collections) expected ≡ ok tt)
      × ((i j : String)
          → find i j u.collections
            ≡ (if same_place model.name key i j then none else find i j s.collections))
unfolding delete
delete-find model id expected s {u} {key} keyed h =
    let (name, named, h₁) = >>=-eq-ok (assert_safe_schema_identifier model.name) _ h in
    let is : name ≡ model.name = assert_safe_schema_identifier-same model.name named in
    let h₂ = rw (is, keyed) at h₁ in
    let (_, checked, h₃) =
      >>=-eq-ok (check_delete (find model.name key s.collections) expected) _ h₂ in
    (checked, delete_found-find model.name key (find model.name key s.collections) s h₃ refl)
