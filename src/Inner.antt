-- ===== src/Inner.antt =====
-- storage/StorageFileInnerAPI/storageFileInner.c: nodes by id, added, read, found, changed and
-- removed.
mod Values
mod Add
mod Find
mod Remove
unfoldable pub use Values.*
unfoldable pub use Add.*
unfoldable pub use Find.*
unfoldable pub use Remove.*
