-- ===== src/Outbox/Store.antt =====
-- src/core/outbox-store.ts: StoreOutboxAdapter, on a store that locks optimistically and has
-- transactions, as the one of src/adapters/store/memory.ts.
mod Table
mod Leases
mod Batches
mod Inversion
mod Protects
mod Presents
mod Settles
mod Acks
pub mod Exclusive
pub mod Leasing
unfoldable pub use Table.*
unfoldable pub use Leases.*
unfoldable pub use Batches.*
