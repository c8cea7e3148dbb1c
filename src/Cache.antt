-- ===== src/Cache.antt =====
-- src/adapters/cache: the cache adapters.
pub mod Memory
