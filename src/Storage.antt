-- ===== src/Storage.antt =====
-- packages/object_storage: the in-memory store of store.py, and the service of service.py with its tables
-- of assets and artifacts. The bytes of an object are numbers; the texts of identifiers are the caller's.
-- A call of a store, and a transaction, may raise, and then it has changed nothing: which ones do is given
-- by the number of the call. Hashing, JSON and UTF-8 are the caller's.
pub mod Effects
pub mod Formats
pub mod Removal
pub mod Publish
pub mod Upload
pub mod Retention
mod Examples
