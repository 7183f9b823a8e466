-- ===== src/Client.antt =====
-- analyzer/main.y: the actions of the grammar build `struct query` while bison parses a command, and
-- `parseQuery` turns it into the message `Query`.
-- The blocks that `dmalloc` returns are taken as zeroed: the actions leave `connected`, `next` and
-- `compList` unset and read them as null.
mod Build
mod Syntax
mod Wire
pub mod Lexer
pub mod Grammar
pub mod Sending
pub mod Commands
unfoldable pub use Build.*
unfoldable pub use Syntax.*
unfoldable pub use Wire.*
