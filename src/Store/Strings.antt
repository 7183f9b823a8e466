-- ===== src/Store/Strings.antt =====
-- Strings in chains of nodes, written and read again: `insertNodeStr` and `readStringFromNode`.
pub mod Copied
pub mod Written
pub mod Steps
pub mod Links
pub mod Counted
pub mod Chained
pub mod RoundTrip
pub mod Unterminated
