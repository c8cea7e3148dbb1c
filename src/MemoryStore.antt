-- ===== src/MemoryStore.antt =====
-- src/adapters/store/memory.ts: MemoryStoreAdapter, its rows, their revisions, and its transactions.
pub mod Revisions
pub mod Rows
pub mod Batches
pub mod Commit
pub mod Transaction
pub mod Isolation
pub mod Serial
pub mod Query
