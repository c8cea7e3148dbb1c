-- ===== src/Outbox/Memory.antt =====
-- src/core/outbox-memory.ts: MemoryOutboxAdapter.
mod Defs
pub mod Delivers
pub mod Drain
mod Ids
mod Sane
pub mod Invariant
pub mod Overtaking
pub mod Split
unfoldable pub use Defs.*
