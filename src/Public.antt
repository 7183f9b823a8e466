-- ===== src/Public.antt =====
-- storage/StorageFilePublicAPI/storageFilePublic.c: queries that come as messages. The file does not
-- compile as it stands; a call with too few or too many arguments is read as the one that is meant.
mod Fields
mod Insert
mod Update
mod Filter
mod Find
pub mod Matching
pub mod Terminated
pub mod Typed
unfoldable pub use Fields.*
unfoldable pub use Insert.*
unfoldable pub use Update.*
unfoldable pub use Filter.*
unfoldable pub use Find.*
