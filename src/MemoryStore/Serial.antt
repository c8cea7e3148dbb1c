-- ===== src/MemoryStore/Serial.antt =====
-- src/adapters/store/memory.ts: the commit of a transaction against its steps.
pub mod Entries
mod Prepared
mod Places
mod Overlay
mod Effects
pub mod Commits
pub mod Alone
