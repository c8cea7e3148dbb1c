-- ===== src/Outbox/Protocol.antt =====
-- src/core/outbox-protocol.ts: leases, versions, order keys and the settled forms of an event.
mod Lease
mod Keys
mod Settle
unfoldable pub use Lease.*
unfoldable pub use Keys.*
unfoldable pub use Settle.*
