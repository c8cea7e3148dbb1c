-- ===== src/Outbox.antt =====
-- src/core/outbox-*.ts: the outbox of search events.
pub mod Event
pub mod Protocol
pub mod Order
pub mod Memory
pub mod Store
