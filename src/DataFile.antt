-- ===== src/DataFile.antt =====
-- storage/DataFileAPI/dataFile.c: the schema, the nodes and the chains of string nodes in the file.
-- A buffer is the bytes of it that are set. A struct that is read short is a fault, since its fields
-- are not set. What `malloc` refuses is not modelled, nor is `free`.
mod Read
mod Write
pub mod Bytes
pub mod Reading
pub mod RoundTrip
pub mod Allocation
unfoldable pub use Read.*
unfoldable pub use Write.*
