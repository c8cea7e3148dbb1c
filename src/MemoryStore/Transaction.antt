-- ===== src/MemoryStore/Transaction.antt =====
-- src/adapters/store/memory.ts: `transaction`, by the steps of its callback. The queries of a transaction
-- read its own rows and are not recorded; a read-only transaction is one without writes.
use active_ts.Prelude.{ℕ, ◌≡◌, Bool, Option, none, some, List, [], ◌∷◌, if◌then◌else◌}
use active_ts.Prelude.Text.{String}
use active_ts.Prelude.Nested.{Nested, find, put, drop_tidy}
use active_ts.SafeKeys.{EntityId, assert_safe_entity_id_array}
use active_ts.EntityKey.{entity_id_key}
use active_ts.DataValue.{DataValue}
use active_ts.Errors.{Result, ok, ◌>>=◌}
use active_ts.MemoryStore.Revisions.{
  no_revisions, begin_transaction_snapshot, release_transaction_snapshot,
}
use active_ts.MemoryStore.Rows.{
  MemoryStore, Model, is_some, prepare_write, create, update, delete, get, get_many,
}
use active_ts.MemoryStore.Commit.{DirtyChange, creates, updates, deletes}

-- `txStore`, `dirty` and `pointReads`.
pub record Transaction : Type 0 where
  pub store : MemoryStore
  pub dirty : Nested DirtyChange
  pub point_reads : Nested (Unit {0})

-- The store of a transaction is a new one, with the rows cloned.
unfoldable pub start : MemoryStore → Transaction
start s = record {
  store = record { collections = s.collections; revisions = no_revisions };
  dirty = [];
  point_reads = [];
}

-- `beginTransactionSnapshot` of the store; the transaction's snapshot is the generation.
unfoldable pub begin : MemoryStore → MemoryStore
begin s = record s { revisions = begin_transaction_snapshot s.revisions }

unfoldable pub finish : ℕ → MemoryStore → MemoryStore
finish snapshot s = record s { revisions = release_transaction_snapshot snapshot s.revisions }

abbrev pub created : DataValue → Option DirtyChange → DirtyChange
created v (some (deletes expected)) = updates v expected
created v _ = creates v

unfoldable pub mark_create : String → String → DataValue → Nested DirtyChange → Nested DirtyChange
mark_create name key v dirty = put name key (created v (find name key dirty)) dirty

abbrev pub updated : DataValue → Option ℕ → Option DirtyChange → DirtyChange
updated v expected none = updates v expected
updated v expected (some (creates w)) = creates v
updated v expected (some (updates w first)) = updates v first
updated v expected (some (deletes first)) = updates v first

unfoldable pub mark_update :
    String → String → DataValue → Option ℕ → Nested DirtyChange → Nested DirtyChange
mark_update name key v expected dirty =
    put name key (updated v expected (find name key dirty)) dirty

-- `markDelete`, by the change that is marked already.
unfoldable pub mark_deleted :
    String → String → Bool → Option ℕ → Option DirtyChange → Nested DirtyChange → Nested DirtyChange
mark_deleted name key existed expected none dirty =
    if existed then put name key (deletes expected) dirty else dirty
mark_deleted name key existed expected (some (creates v)) dirty = drop_tidy name key dirty
mark_deleted name key existed expected (some (updates v first)) dirty =
    put name key (deletes first) dirty
mark_deleted name key existed expected (some (deletes first)) dirty =
    put name key (deletes first) dirty

unfoldable pub mark_delete :
    String → String → Bool → Option ℕ → Nested DirtyChange → Nested DirtyChange
unfolding mark_deleted
mark_delete name key existed expected dirty =
    mark_deleted name key existed expected (find name key dirty) dirty

-- A read by id, which is recorded.
unfoldable pub tx_get : Model → EntityId → Transaction → Result (Transaction × Option DataValue)
tx_get model id t = do
  row ← get model id t.store
  key ← entity_id_key id
  ok (record t { point_reads = put model.name key tt t.point_reads }, row)

-- The reads of `getMany`, which are recorded one by one.
unfoldable pub record_reads :
    String → List EntityId → Nested (Unit {0}) → Result (Nested (Unit {0}))
record_reads name [] reads = ok reads
record_reads name (id ∷ ids) reads = do
  key ← entity_id_key id
  record_reads name ids (put name key tt reads)

unfoldable pub tx_get_many :
    Model → List EntityId → Transaction → Result (Transaction × List (Option DataValue))
unfolding record_reads
tx_get_many model ids t = do
  safe_ids ← assert_safe_entity_id_array ids
  rows ← get_many model safe_ids t.store
  reads ← record_reads model.name safe_ids t.point_reads
  ok (record t { point_reads = reads }, rows)

unfoldable pub tx_create : Model → EntityId → DataValue → Transaction → Result Transaction
unfolding mark_create
tx_create model id row t = do
  write ← prepare_write model id row
  store ← create model id write.1 t.store
  ok (record t { store = store; dirty = mark_create model.name write.0 write.1 t.dirty })

unfoldable pub tx_update :
    Model → EntityId → DataValue → Option ℕ → Transaction → Result Transaction
unfolding mark_update
tx_update model id row expected t = do
  write ← prepare_write model id row
  store ← update model id write.1 expected t.store
  ok (record t { store = store; dirty = mark_update model.name write.0 write.1 expected t.dirty })

unfoldable pub tx_delete : Model → EntityId → Option ℕ → Transaction → Result Transaction
unfolding mark_delete
tx_delete model id expected t = do
  key ← entity_id_key id
  let existed = is_some (find model.name key t.store.collections)
  store ← delete model id expected t.store
  ok (record t { store = store; dirty = mark_delete model.name key existed expected t.dirty })

-- What a failed savepoint goes back to: the rows, the changes and the reads, but not the revisions of the
-- transaction's own store.
unfoldable pub restore : Transaction → Transaction → Transaction
restore checkpoint t = record checkpoint {
  store = record t.store { collections = checkpoint.store.collections };
}

-- The transactions that the callback can come to.
pub data Runs (s : MemoryStore) : Transaction → Type 0 where
  starts : Runs s (start s)
  gets :
      {t u : Transaction} {row : Option DataValue} (model : Model) (id : EntityId)
      → Runs s t
      → tx_get model id t ≡ ok (u, row)
      → Runs s u
  gets_many :
      {t u : Transaction} {rows : List (Option DataValue)} (model : Model) (ids : List EntityId)
      → Runs s t
      → tx_get_many model ids t ≡ ok (u, rows)
      → Runs s u
  creates_row :
      {t u : Transaction} (model : Model) (id : EntityId) (row : DataValue)
      → Runs s t
      → tx_create model id row t ≡ ok u
      → Runs s u
  updates_row :
      {t u : Transaction} (model : Model) (id : EntityId) (row : DataValue) (expected : Option ℕ)
      → Runs s t
      → tx_update model id row expected t ≡ ok u
      → Runs s u
  deletes_row :
      {t u : Transaction} (model : Model) (id : EntityId) (expected : Option ℕ)
      → Runs s t
      → tx_delete model id expected t ≡ ok u
      → Runs s u
  -- A savepoint that was begun at the first and has failed at the second.
  rolls_back : {t u : Transaction} → Runs s t → Runs s u → Runs s (restore t u)
