-- ===== src/Lib.antt =====
-- Verification library of active-ts: models of the core of the ORM and theorems about them.
--
-- The program. active-ts maps classes to stores, caches and search services through adapters. Values
-- that cross an adapter are checked first (src/core/safe-keys.ts). Entity ids become keys
-- (src/core/query-utils.ts), and ids of Datastore keep 64-bit integers as marked texts
-- (src/core/datastore-int64-id.ts). Writes to a store append events to an outbox, from which a worker
-- takes them to bring a search index up to date (src/core/outbox-*.ts). The events of one entity must
-- be delivered in order: each event has keys that block the later events of the same entity while it
-- waits (src/core/outbox-protocol.ts).
--
-- The files.
-- Prelude: the libraries' names, Boolean tests, lists, texts, decimals and association lists.
-- Errors: src/core/errors.ts, and the results of code that may throw.
-- Int64Id: src/core/datastore-int64-id.ts, datastoreInt64Id and its inverse.
-- SafeKeys: src/core/safe-keys.ts, the checks on keys, ids, identifiers and times to live.
-- DataValue: src/core/safe-keys.ts, assertSafeDataKeys, assertCacheableValue, cloneSafeData and
--   clonePortableData over JavaScript values as trees.
-- SchemaNames: src/core/schema-names.ts, the names of indexes that are made from their fields, and which of
--   them are refused as identifiers.
-- EntityKey: src/core/query-utils.ts, entityIdKey, entityIdFromKey and entityIdFromCanonicalKey.
-- Cache.Memory: src/adapters/cache/memory.ts, MemoryCacheAdapter, with the batches of
--   src/core/cache-input.ts. Its `view` is the map that a read at a time sees.
-- Json: JSON.stringify at arrays of texts and nulls.
-- DatastoreKey: src/core/datastore-key.ts, src/core/datastore-search-scope.ts, and
--   datastoreSearchDocumentIdentity of src/core/search-utils.ts.
-- Cursor: src/core/cursor.ts, the values that can be compared, the order of rows, and the page behind a cursor in
--   src/adapters/store/memory.ts.
-- ExecutionBudget: src/core/execution-budget.ts, deadlines, abort and the wait before a retry.
-- BatchLoader: src/core/batch-loader.ts, loads of single entities gathered into batches.
-- Outbox.Event: src/core/outbox-types.ts and the checks of src/core/outbox-validation.ts.
-- Outbox.Protocol: src/core/outbox-protocol.ts, leases, snapshots, order keys and failed events.
-- Outbox.Order: the order that deliveries must keep, as an indexed data type.
-- Outbox.Memory: src/core/outbox-memory.ts, MemoryOutboxAdapter.
-- Outbox.Store: src/core/outbox-store.ts, StoreOutboxAdapter, over the rows of
--   src/adapters/store/memory.ts; its `Call`s may be made by any number of workers, one after another.
--   In Outbox.Store.Leasing other workers may change the rows between the steps of `lease`.
-- MemoryStore: src/adapters/store/memory.ts, MemoryStoreAdapter: the rows and their revisions, and
--   `transaction` with `applyDirty`. MemoryStore.Transaction has the transactions that a callback can come
--   to, MemoryStore.Isolation.Evolution what others may do to the store before the commit, and
--   MemoryStore.Serial the commit. MemoryStore.Query has `query` over the rows that a filter leaves.
-- Tests: the theorems at concrete inputs.
--
-- How code is modelled. A method returns the state after it and its result, or a result that may be
-- `throw` where it leaves the state as it was. `Date.now()` is an argument `now`, in milliseconds. The
-- messages of errors are left out, their classes are kept. Arguments have the types of the source's
-- signatures, so its `typeof` tests hold; property descriptors, symbols and prototypes are left out.
-- Numbers are integers. Texts are sequences of code points, without unpaired surrogates. A `Map` is an
-- association list, a `Set` a list. Loops over arrays are structural recursion,
-- but for chunkItems, whose fuel is the number of items: a round takes one item or more.
-- The rounds of sortMemoryRows are bounded by the number of rows, since a round takes a row or more, or
-- doubles the width. The digest of node:crypto, isDeepStrictEqual of node:util, and the length of the text
-- of a cursor, its JSON in base64url, are parameters.
--
-- Where rows are sorted and paged, a row gives for each field a value that `comparable` of src/core/cursor.ts
-- accepts. Cursor.Values has `comparable` itself, with what it throws, and the rows that give such values; the
-- text of a date, toISOString, is a parameter there.
--
-- Not modelled: contexts, queries, models and metadata, the drivers of databases and search services,
-- the worker of the outbox and the listing of its store, the command line, and the support for tests.
pub mod Prelude
pub mod Errors
pub mod Int64Id
pub mod SafeKeys
pub mod SchemaNames
pub mod Cursor
pub mod MemoryStore
pub mod EntityKey
pub mod DataValue
pub mod Cache
pub mod Json
pub mod DatastoreKey
pub mod Outbox
pub mod ExecutionBudget
pub mod BatchLoader
mod Tests
