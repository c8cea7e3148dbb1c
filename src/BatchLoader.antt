-- ===== src/BatchLoader.antt =====
-- src/core/batch-loader.ts: loads of single entities gathered into batches.
mod Defs
mod Chunks
pub mod Loads
pub mod Settles
unfoldable pub use Defs.*
pub use Chunks.*
