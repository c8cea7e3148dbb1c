-- ===== src/Int64Id.antt =====
-- src/core/datastore-int64-id.ts: int64 ids as marked text. The brand prefix tells them from other text.
mod Laws
pub use Laws.*
mod Defs
unfoldable pub use Defs.*
