-- ===== src/OsFile.antt =====
-- storage/OSFileAPI/osFile.c, over the file that its callers hold open: the bytes, and the position
-- of the stream. The streams of C are taken as unbuffered: what is written is in the file at once.
mod Stream
mod Disk
pub mod Laws
pub mod Names
unfoldable pub use Stream.*
unfoldable pub use Disk.*
