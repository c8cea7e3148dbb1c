-- ===== src/MemoryStore/Isolation.antt =====
-- src/adapters/store/memory.ts: what the revisions keep of the changes since a snapshot.
mod Compaction
pub mod Tracking
mod Inversion
mod Writes
mod Resets
mod ResetAll
pub mod Applies
pub mod Bounds
pub mod Evolution
mod Revised
mod RevisedBatches
pub mod Generation
