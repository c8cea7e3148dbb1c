-- ===== src/EntityKey.antt =====
-- src/core/query-utils.ts, `entityIdKey` and `entityIdFromKey`: entity ids as map keys, and back.
mod Defs
mod RoundTrip
pub mod Canonical
unfoldable pub use Defs.*
pub use RoundTrip.*
