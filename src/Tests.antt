-- ===== src/Tests.antt =====
-- The theorems at concrete inputs.
pub mod Data
mod Outbox
mod Leases
mod Batches
mod Requests
mod Cursors
mod Schemas
mod Values
mod Transactions
mod Pages
