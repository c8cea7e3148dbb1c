-- ===== src/MemoryStore/Rows.antt =====
-- src/adapters/store/memory.ts: reading and writing rows, and the checks of src/core/store-options.ts on
-- the data of a row. A row is a tree, so the clone of one that passed its checks is the row itself. The
-- counters of calls are left out.
use active_ts.Prelude.{
  ℕ, List, [], ◌∷◌, Bool, true, false, not, Option, none, some, ◌==◌, if◌then◌else◌,
}
use active_ts.Prelude.Int.{pos}
use active_ts.Prelude.Text.{String, str_eq}
use active_ts.Prelude.Nested.{Nested, find, put, drop_entry}
use active_ts.SafeKeys.{
  EntityId, text, number, assert_safe_entity_id, assert_safe_entity_id_array,
  assert_safe_schema_identifier,
}
use active_ts.EntityKey.{entity_id_key}
use active_ts.DataValue.{DataValue, Fields, object, field, end, clone_portable_data}
use active_ts.Errors.{Result, ok, throw, validation, conflict, not_found, guard, ◌>>=◌, ◌>>◌}
use active_ts.MemoryStore.Revisions.{Revisions, reserve_row_revisions, record_row_revision}

pub record MemoryStore : Type 0 where
  pub collections : Nested DataValue
  pub revisions : Revisions

-- What the methods read of the metadata of a model.
pub record Model : Type 0 where
  pub name : String
  pub id_field : String

abbrev pub is_some {ℓ} : {A : Type ℓ} → Option A → Bool
is_some none = false
is_some (some a) = true

unfoldable pub field_value : String → Fields → Option DataValue
field_value key end = none
field_value key (field k v fields) = if str_eq k key then some v else field_value key fields

-- `valueFor` at a field of the top level.
abbrev pub value_for : DataValue → String → Option DataValue
value_for (object fields) key = field_value key fields
value_for _ key = none

-- The value of an id field; null, undefined and values of other types are refused.
abbrev pub id_of_value : Option DataValue → Result EntityId
id_of_value (some (DataValue.text s)) = ok (text s)
id_of_value (some (DataValue.number z)) = ok (number z)
id_of_value _ = throw validation

-- `assertStoreDataHasModelId`
unfoldable pub assert_store_data_has_model_id : Model → DataValue → Result EntityId
unfolding field_value
assert_store_data_has_model_id model row = do
  id ← id_of_value (value_for row model.id_field)
  assert_safe_entity_id id
  ok id

-- `assertStoreDataMatchesId`
unfoldable pub assert_store_data_matches_id : Model → EntityId → DataValue → Result (Unit {0})
assert_store_data_matches_id model id row = do
  row_id ← assert_store_data_has_model_id model row
  found ← entity_id_key row_id
  wanted ← entity_id_key id
  guard (str_eq found wanted) validation

abbrev pub is_object : DataValue → Bool
is_object (object fields) = true
is_object _ = false

-- `clonePortableDataObject`
unfoldable pub clone_portable_data_object : DataValue → Result DataValue
clone_portable_data_object row = do guard (is_object row) validation; clone_portable_data row

-- `memoryVersionMatches`
abbrev pub is_version : ℕ → Option DataValue → Bool
is_version expected (some (DataValue.number (pos n))) = n == expected
is_version expected _ = false

unfoldable pub memory_version_matches : Option DataValue → ℕ → Bool
unfolding field_value
memory_version_matches none expected = false
memory_version_matches (some row) expected = is_version expected (value_for row "version")

-- The row at a place is set, at a revision.
unfoldable pub set_row : String → String → DataValue → ℕ → MemoryStore → MemoryStore
set_row name key row revision s = record s {
  collections = put name key row s.collections;
  revisions = record_row_revision name key revision true s.revisions;
}

-- The row at a place is deleted, at a revision.
unfoldable pub unset_row : String → String → ℕ → MemoryStore → MemoryStore
unset_row name key revision s = record s {
  collections = drop_entry name key s.collections;
  revisions = record_row_revision name key revision false s.revisions;
}

-- The data of a write, checked, and the key of its row.
unfoldable pub prepare_write : Model → EntityId → DataValue → Result (String × DataValue)
prepare_write model id row = do
  clean ← clone_portable_data_object row
  assert_store_data_matches_id model id clean
  name ← assert_safe_schema_identifier model.name
  key ← entity_id_key id
  ok (key, clean)

unfoldable pub reserve_one : MemoryStore → Result (MemoryStore × ℕ)
reserve_one s = do
  reserved ← reserve_row_revisions 1 s.revisions
  ok (record s { revisions = reserved.0 }, reserved.1)

unfoldable pub create : Model → EntityId → DataValue → MemoryStore → Result MemoryStore
unfolding reserve_one set_row
create model id row s = do
  write ← prepare_write model id row
  guard (not (is_some (find model.name write.0 s.collections))) conflict
  reserved ← reserve_one s
  ok (set_row model.name write.0 write.1 reserved.1 reserved.0)

-- The optimistic lock of `update`.
abbrev pub check_version : Option DataValue → Option ℕ → Result (Unit {0})
check_version row none = ok tt
check_version row (some expected) = guard (memory_version_matches row expected) conflict

unfoldable pub update : Model → EntityId → DataValue → Option ℕ → MemoryStore → Result MemoryStore
unfolding reserve_one set_row
update model id row expected s = do
  write ← prepare_write model id row
  let current = find model.name write.0 s.collections
  guard (is_some current) not_found
  check_version current expected
  reserved ← reserve_one s
  ok (set_row model.name write.0 write.1 reserved.1 reserved.0)

-- The optimistic lock of `delete`, which wants the row to be there.
abbrev pub check_delete : Option DataValue → Option ℕ → Result (Unit {0})
check_delete row none = ok tt
check_delete none (some expected) = throw not_found
check_delete (some row) (some expected) =
    guard (memory_version_matches (some row) expected) conflict

unfoldable pub delete_found : String → String → Option DataValue → MemoryStore → Result MemoryStore
unfolding reserve_one unset_row
delete_found name key none s = ok s
delete_found name key (some row) s = do
  reserved ← reserve_one s
  ok (unset_row name key reserved.1 reserved.0)

unfoldable pub delete : Model → EntityId → Option ℕ → MemoryStore → Result MemoryStore
unfolding delete_found
delete model id expected s = do
  name ← assert_safe_schema_identifier model.name
  key ← entity_id_key id
  let row = find name key s.collections
  check_delete row expected
  delete_found name key row s

unfoldable pub get : Model → EntityId → MemoryStore → Result (Option DataValue)
get model id s = do
  name ← assert_safe_schema_identifier model.name
  key ← entity_id_key id
  ok (find name key s.collections)

-- The loop of `getMany`.
unfoldable pub get_all : String → List EntityId → MemoryStore → Result (List (Option DataValue))
get_all name [] s = ok []
get_all name (id ∷ ids) s = do
  key ← entity_id_key id
  rows ← get_all name ids s
  ok (find name key s.collections ∷ rows)

unfoldable pub get_many : Model → List EntityId → MemoryStore → Result (List (Option DataValue))
unfolding get_all
get_many model ids s = do
  safe_ids ← assert_safe_entity_id_array ids
  name ← assert_safe_schema_identifier model.name
  get_all name safe_ids s
