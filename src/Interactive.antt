-- ===== src/Interactive.antt =====
-- storage/UserAPI/InteractiveMode/interactiveMode.c: the first file from what the user types, the
-- program's arguments, and the loop of commands. Of what is printed the replies are modelled, not
-- the prompts.
mod Setup
mod Session
pub mod Words
pub mod Answers
unfoldable pub use Setup.*
unfoldable pub use Session.*
