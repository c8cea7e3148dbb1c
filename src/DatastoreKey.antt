-- ===== src/DatastoreKey.antt =====
-- src/core/datastore-key.ts and src/core/datastore-search-scope.ts: ancestor keys, their identity, and the
-- physical scope of a search document (src/core/search-utils.ts, `datastoreSearchDocumentIdentity`).
mod Defs
unfoldable pub use Defs.*
