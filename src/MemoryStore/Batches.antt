-- ===== src/MemoryStore/Batches.antt =====
-- src/adapters/store/memory.ts: `seed` of a model, and `reset`.
use active_ts.Prelude.{ℕ, ◌+◌, Bool, true, false, not, List, [], ◌∷◌, length, ◌==◌, if◌then◌else◌}
use active_ts.Prelude.Text.{String, str_eq}
use active_ts.Prelude.Assoc.{erase}
use active_ts.Prelude.Nested.{Nested, find, inner_map}
use active_ts.SafeKeys.{assert_safe_schema_identifier}
use active_ts.EntityKey.{entity_id_key}
use active_ts.DataValue.{DataValue}
use active_ts.Errors.{Result, ok, conflict, guard, ◌>>=◌, ◌>>◌}
use active_ts.MemoryStore.Revisions.{Revisions, reserve_row_revisions, record_row_revision}
use active_ts.MemoryStore.Rows.{
  MemoryStore, Model, is_some, clone_portable_data_object, assert_store_data_has_model_id, set_row,
}

unfoldable pub prepare_seed : Model → List DataValue → Result (List (String × DataValue))
prepare_seed model [] = ok []
prepare_seed model (row ∷ rows) = do
  clean ← clone_portable_data_object row
  id ← assert_store_data_has_model_id model clean
  key ← entity_id_key id
  rest ← prepare_seed model rows
  ok ((key, clean) ∷ rest)

abbrev has_text : String → List String → Bool
has_text key [] = false
has_text key (k ∷ ks) = if str_eq k key then true else has_text key ks

unfoldable pub check_duplicates : List String → List (String × DataValue) → Result (Unit {0})
check_duplicates seen [] = ok tt
check_duplicates seen ((key, row) ∷ rows) = do
  guard (not (has_text key seen)) conflict
  check_duplicates (key ∷ seen) rows

unfoldable pub check_absent :
    String → Nested DataValue → List (String × DataValue) → Result (Unit {0})
check_absent name collections [] = ok tt
check_absent name collections ((key, row) ∷ rows) = do
  guard (not (is_some (find name key collections))) conflict
  check_absent name collections rows

-- The rows, each at the revision after that of the row before.
unfoldable pub set_rows : String → List (String × DataValue) → ℕ → MemoryStore → MemoryStore
unfolding set_row
set_rows name [] revision s = s
set_rows name ((key, row) ∷ rows) revision s =
    set_rows name rows (revision + 1) (set_row name key row revision s)

-- The revisions of so many rows, and none of no row.
unfoldable pub reserve : ℕ → MemoryStore → Result (MemoryStore × ℕ)
reserve count s =
    if count == 0
    then ok (s, 0)
    else (reserve_row_revisions count s.revisions >>= λ reserved.
        ok (record s { revisions = reserved.0 }, reserved.1))

unfoldable pub seed : Model → List DataValue → MemoryStore → Result MemoryStore
unfolding set_rows
seed model rows s = do
  name ← assert_safe_schema_identifier model.name
  prepared ← prepare_seed model rows
  check_duplicates [] prepared
  check_absent name s.collections prepared
  reserved ← reserve (length prepared) s
  ok (set_rows name prepared reserved.1 reserved.0)

-- The rows of a deleted collection get revisions one by one.
unfoldable pub record_deleted : String → List (String × DataValue) → ℕ → Revisions → Revisions
unfolding record_row_revision
record_deleted name [] revision r = r
record_deleted name ((key, row) ∷ rows) revision r =
    record_deleted name rows (revision + 1) (record_row_revision name key revision false r)

-- `reset` of a model.
unfoldable pub reset : String → MemoryStore → Result MemoryStore
unfolding record_deleted
reset model_name s = do
  name ← assert_safe_schema_identifier model_name
  let rows = inner_map name s.collections
  reserved ← reserve (length rows) s
  ok (record s {
    collections = erase name s.collections;
    revisions = record_deleted name rows reserved.1 reserved.0.revisions;
  })

-- `reset` of all models: the number of rows, and their revisions, one by one.
unfoldable pub total_rows : Nested DataValue → ℕ
total_rows [] = 0
total_rows ((name, rows) ∷ removed) = length rows + total_rows removed

unfoldable pub record_all : Nested DataValue → ℕ → Revisions → Revisions
unfolding record_deleted
record_all [] revision r = r
record_all ((name, rows) ∷ removed) revision r =
    record_all removed (revision + length rows) (record_deleted name rows revision r)

unfoldable pub reset_all : MemoryStore → Result MemoryStore
unfolding record_all total_rows
reset_all s = do
  reserved ← reserve (total_rows s.collections) s
  ok (record s {
    collections = [];
    revisions = record_all s.collections reserved.1 reserved.0.revisions;
  })
