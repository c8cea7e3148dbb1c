-- ===== src/Cache/Memory.antt =====
-- src/adapters/cache/memory.ts: MemoryCacheAdapter. Each call is given the time, and a call that throws
-- leaves the counters that it has already counted up.
mod Defs
mod View
mod Reads
mod Writes
mod Checks
mod Refusals
unfoldable pub use Defs.*
pub use View.*
pub use Reads.*
pub use Writes.*
pub use Refusals.*
