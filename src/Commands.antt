-- ===== src/Commands.antt =====
-- storage/StorageFilePublicAPI/storageFilePublic.c: the commands of the interactive mode, whose
-- arguments are strings; and storage/Utils/parser.c, which adds the nodes of a text file with them.
mod Numbers
mod Insert
mod Update
mod Retrieve
mod Parse
pub mod Refusal
pub mod Retrieval
unfoldable pub use Numbers.*
unfoldable pub use Insert.*
unfoldable pub use Update.*
unfoldable pub use Retrieve.*
unfoldable pub use Parse.*
