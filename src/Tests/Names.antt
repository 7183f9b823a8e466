-- ===== src/Tests/Names.antt =====
-- Witnesses of the theorems about files by name.
use llp_base.Common.{◌⊎◌, ℕ, ◌≡◌, none, some, List, [], ◌∷◌, codes}
use llp_base.OsFile.{FileTable, emptied, open_forse, open_success, open_or_create_file, delete_file}
use llp_base.OsFile.Names.{found, open_forse-found, open_or_create_file-found}

abbrev disk : FileTable
disk = (codes "old", codes "x") ∷ (codes "data", codes "y") ∷ []

open_or_create_file-found_example :
    (found (codes "old") (open_or_create_file emptied (codes "old") disk).2 ≡ some [])
    × (found (codes "data") (open_or_create_file emptied (codes "old") disk).2
        ≡ found (codes "data") disk)
    × (found (codes "old") (delete_file (codes "old") disk).1 ≡ none)
    × (found (codes "data") (delete_file (codes "old") disk).1 ≡ found (codes "data") disk)
open_or_create_file-found_example =
    open_or_create_file-found (codes "old") (codes "data") disk (λ e. cc e)

open_forse-found_example :
    (bytes : List ℕ) × (disk' : FileTable) × (open_forse (codes "new") disk
      ≡ (open_success, some bytes, disk'))
    × (found (codes "new") disk' ≡ some bytes)
    × ((found (codes "new") disk ≡ some bytes) ⊎ ((found (codes "new") disk ≡ none) × (bytes ≡ [])))
open_forse-found_example = open_forse-found (codes "new") disk
