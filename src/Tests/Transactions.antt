-- ===== src/Tests/Transactions.antt =====
-- The theorems on transactions of the memory store at concrete inputs.
use active_ts.Prelude.{ℕ, ◌≡◌, refl, some, List, [], ◌∷◌, if◌then◌else◌, arith}
use active_ts.Prelude.Int.{pos}
use active_ts.Prelude.Text.{String, byte_length, has_null, strip_prefix}
use active_ts.Prelude.Assoc.{has_key, lookup, insert, erase}
use active_ts.Prelude.Nested.{IsNested, find, inner_map, put, drop_tidy}
use active_ts.Int64Id.{is_datastore_int64_id, datastore_int64_decimal}
use active_ts.SafeKeys.{
  text, assert_safe_entity_id, is_safe_entity_id, assert_safe_schema_identifier,
  is_reserved_field_name, matches_schema_identifier, all_identifier_chars, is_identifier_char,
  is_letter,
}
use active_ts.EntityKey.{entity_id_key, encode_entity_id}
use active_ts.DataValue.{
  DataValue, object, field, end, clone_safe_data, clone_portable_data, is_safe_data, prune,
  is_portable_tree,
}
use active_ts.MemoryStore.Revisions.{
  no_revisions, begin_transaction_snapshot, set_snapshot, snapshot_count, reserve_row_revisions,
  record_row_revision,
}
use active_ts.MemoryStore.Rows.{
  MemoryStore, Model, create, update, get, prepare_write, set_row, is_some,
  clone_portable_data_object, assert_store_data_matches_id, assert_store_data_has_model_id,
  field_value, memory_version_matches, reserve_one,
}
use active_ts.MemoryStore.Commit.{apply_dirty, updates, mutation_count, entries}
use active_ts.MemoryStore.Batches.{reserve}
use active_ts.MemoryStore.Isolation.Evolution.{Evolves, still, created, committed}
use active_ts.MemoryStore.Serial.Commits.{apply_dirty-serializes, apply_dirty-throw}
use active_ts.MemoryStore.Serial.Alone.{apply_dirty-alone}
use active_ts.MemoryStore.Isolation.Bounds.{IsRevised}
use active_ts.MemoryStore.Isolation.Generation.{Evolves-IsRevised}
use active_ts.MemoryStore.Transaction.{
  Transaction, start, begin, tx_get, tx_create, tx_update, mark_update, Runs, starts, gets,
  updates_row,
}
use active_ts.Errors.{ok, throw, conflict}

abbrev users : Model
users = record { name = "users"; id_field = "id" }

abbrev user : String → ℕ → DataValue
user id version =
    object (field "id" (DataValue.text id) (field "version" (DataValue.number (pos version)) end))

abbrev empty_store : MemoryStore
empty_store = record { collections = []; revisions = no_revisions }

abbrev stored : List (String × DataValue) → List (String × ℕ) → List (ℕ × ℕ) → ℕ → MemoryStore
stored rows revisions snapshots generation = record {
  collections = ("users", rows) ∷ [];
  revisions = record {
    of_rows = ("users", revisions) ∷ [];
    tombstones = [];
    snapshots = snapshots;
    generation = generation;
  };
}

-- Two users, before the transaction.
abbrev two : MemoryStore
two =
    stored (("string:a", user "a" 1) ∷ ("string:b", user "b" 1) ∷ [])
      (("string:a", 1) ∷ ("string:b", 2) ∷ []) [] 2

abbrev reads_a : Transaction
reads_a = record (start two) { point_reads = ("users", ("string:a", tt) ∷ []) ∷ [] }

abbrev updates_b : Transaction
updates_b = record reads_a {
  store =
      stored (("string:a", user "a" 1) ∷ ("string:b", user "b" 2) ∷ []) (("string:b", 1) ∷ []) [] 1;
  dirty = ("users", ("string:b", updates (user "b" 2) (some 1)) ∷ []) ∷ [];
}

two-Runs : Runs two updates_b
unfolding start tx_get get tx_update tx_create update create begin begin_transaction_snapshot
    set_snapshot snapshot_count prepare_write set_row assert_safe_schema_identifier
    is_reserved_field_name matches_schema_identifier all_identifier_chars is_identifier_char
    is_letter strip_prefix entity_id_key encode_entity_id assert_safe_entity_id is_safe_entity_id
    is_datastore_int64_id datastore_int64_decimal byte_length has_null clone_portable_data_object
    clone_portable_data clone_safe_data is_safe_data prune is_portable_tree
    assert_store_data_matches_id assert_store_data_has_model_id field_value memory_version_matches
    reserve_one reserve_row_revisions record_row_revision mark_update insert lookup erase put
    drop_tidy find inner_map
two-Runs =
    updates_row {t = reads_a} users (text "b") (user "b" 2) (some 1)
      (gets {row = some (user "a" 1)} users (text "a") starts refl) refl

-- Another call creates a row before the commit.
abbrev three : MemoryStore
three =
    stored (("string:a", user "a" 1) ∷ ("string:b", user "b" 1) ∷ ("string:d", user "d" 1) ∷ [])
      (("string:a", 1) ∷ ("string:b", 2) ∷ ("string:d", 3) ∷ []) ((2, 1) ∷ []) 3

two-Evolves : Evolves 2 (begin two) three
unfolding start tx_get get tx_update tx_create update create begin begin_transaction_snapshot
    set_snapshot snapshot_count prepare_write set_row assert_safe_schema_identifier
    is_reserved_field_name matches_schema_identifier all_identifier_chars is_identifier_char
    is_letter strip_prefix entity_id_key encode_entity_id assert_safe_entity_id is_safe_entity_id
    is_datastore_int64_id datastore_int64_decimal byte_length has_null clone_portable_data_object
    clone_portable_data clone_safe_data is_safe_data prune is_portable_tree
    assert_store_data_matches_id assert_store_data_has_model_id field_value memory_version_matches
    reserve_one reserve_row_revisions record_row_revision mark_update insert lookup erase put
    drop_tidy find inner_map
two-Evolves = created users (text "d") (user "d" 1) still refl

abbrev after_commit : MemoryStore
after_commit =
    stored (("string:a", user "a" 1) ∷ ("string:b", user "b" 2) ∷ ("string:d", user "d" 1) ∷ [])
      (("string:a", 1) ∷ ("string:b", 4) ∷ ("string:d", 3) ∷ []) ((2, 1) ∷ []) 4

-- Another call changes the row that was read.
abbrev changed : MemoryStore
changed =
    stored (("string:a", user "a" 5) ∷ ("string:b", user "b" 1) ∷ [])
      (("string:a", 3) ∷ ("string:b", 2) ∷ []) ((2, 1) ∷ []) 3

commits : apply_dirty updates_b.dirty updates_b.point_reads 2 three ≡ (after_commit, ok tt)
unfolding apply_dirty reserve reserve_row_revisions record_row_revision insert lookup erase put
    drop_tidy find inner_map memory_version_matches clone_safe_data is_safe_data
    is_reserved_field_name strip_prefix prune
commits = refl

refused : apply_dirty updates_b.dirty updates_b.point_reads 2 changed ≡ (changed, throw conflict)
unfolding apply_dirty lookup find inner_map memory_version_matches
refused = refl

two-IsRevised : IsRevised two
unfolding find inner_map lookup
two-IsRevised i j r h = ground (arith)

apply_dirty-serializes_example :
    (find "users" "string:a" updates_b.point_reads ≡ some tt
      → find "users" "string:a" three.collections ≡ find "users" "string:a" two.collections)
    × (find "users" "string:a" after_commit.collections ≡ (
        if is_some (find "users" "string:a" updates_b.dirty)
        then find "users" "string:a" updates_b.store.collections
        else find "users" "string:a" three.collections))
apply_dirty-serializes_example =
    apply_dirty-serializes two three after_commit updates_b two-Runs two-Evolves commits "users"
      "string:a"

apply_dirty-throw_example : changed ≡ changed
apply_dirty-throw_example = apply_dirty-throw two changed changed updates_b two-Runs 2 refused

apply_dirty-alone_example :
    (after : MemoryStore) × (apply_dirty updates_b.dirty updates_b.point_reads 2 (begin two)
      ≡ (after, ok tt))
    × ((i j : String) → find i j after.collections ≡ find i j updates_b.store.collections)
unfolding mutation_count entries find inner_map lookup
apply_dirty-alone_example = apply_dirty-alone two updates_b two-Runs two-IsRevised (omega arith)

updates_b-IsNested : IsNested updates_b.dirty
unfolding has_key
updates_b-IsNested = (refl, (refl, tt), tt)

Evolves-IsRevised_example : IsRevised (apply_dirty updates_b.dirty updates_b.point_reads 2 two).0
Evolves-IsRevised_example =
    Evolves-IsRevised 2 {before = two}
      (committed updates_b.dirty updates_b.point_reads 2 updates_b-IsNested still) two-IsRevised
