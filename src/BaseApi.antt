-- ===== src/BaseApi.antt =====
-- storage/StorageFileInnerAPI/storageBaseApi.c: the array of ids, and nodes and string chains in the
-- file. A function that stores through a pointer returns the value; `none` stands for CRUD_FAIL
-- where nothing is stored.
mod Ids
mod Nodes
mod Strings
unfoldable pub use Ids.*
unfoldable pub use Nodes.*
unfoldable pub use Strings.*
