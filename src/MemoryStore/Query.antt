-- ===== src/MemoryStore/Query.antt =====
-- src/adapters/store/memory.ts: `query`, its sort and its pages.
pub mod Sort
pub mod Page
pub mod Merges
mod Slices
mod Runs
pub mod Stable
pub mod Ids
pub mod Sorts
mod Ends
pub mod Walk
pub mod LongCursors
