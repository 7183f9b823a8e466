-- ===== src/Store.antt =====
-- What the functions of storageBaseApi.c and storageFileInner.c make of a file: its bytes are those of
-- a schema and the area of the nodes behind it.
pub mod Lookup
pub mod Slots
pub mod Append
pub mod Insert
pub mod Get
pub mod Add
pub mod AddGet
pub mod Tree
pub mod Moved
pub mod Overwrite
pub mod Apart
pub mod SetValue
pub mod Change
pub mod Update
pub mod Strings
pub mod Cut
pub mod Remove
pub mod Search
pub mod Filtered
pub mod History
