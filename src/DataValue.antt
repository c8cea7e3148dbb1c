-- ===== src/DataValue.antt =====
-- src/core/safe-keys.ts, data values: what may be cached, stored and cloned.
mod Defs
mod Clone
unfoldable pub use Defs.*
pub use Clone.*
