-- ===== src/Handler.antt =====
-- storage/handler.c: a query carried out on the file, and the text of the answer. `concat` appends to
-- the answer; `tmp` has room for 256 characters.
mod Lines
mod Query
pub mod Insertion
unfoldable pub use Lines.*
unfoldable pub use Query.*
