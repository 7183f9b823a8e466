-- ===== src/OsFile/Disk.antt =====
-- The files by name: `openOrCreateFile` and `deleteFile`.
use llp_base.Common.{
  ℕ, Option, none, some, Bool, true, false, List, [], ◌∷◌, ◌==◌, ◌&&◌, if◌then◌else◌,
}

-- Names and contents.
abbrev pub FileTable : Type 0
FileTable = List (List ℕ × List ℕ)

unfoldable pub same_name : List ℕ → List ℕ → Bool
same_name [] [] = true
same_name (a ∷ name) (b ∷ other) = (a == b) && same_name name other
same_name _ _ = false

unfoldable pub contents_of : List ℕ → FileTable → Option (List ℕ)
unfolding same_name
contents_of name [] = none
contents_of name ((other, bytes) ∷ disk) =
    let rest = contents_of name disk in if same_name name other then some bytes else rest

-- `remove`: whether there was such a file, and the other files.
unfoldable pub delete_file : List ℕ → FileTable → Bool × FileTable
unfolding same_name
delete_file name [] = (false, [])
delete_file name ((other, bytes) ∷ disk) =
    let (found, rest) = delete_file name disk in
    if same_name name other then (true, rest) else (found, (other, bytes) ∷ rest)

-- The modes that the program opens files with: "r", "r+b" and "r+w", which need the file to be there,
-- "w", which empties it, and "a+", which keeps what is there.
pub data Mode : Type 0 where
  existing emptied appended : Mode

pub data OpenStatus : Type 0 where
  open_success open_fail : OpenStatus

-- The contents that the stream begins with, none where `fopen` returns NULL.
unfoldable pub open_or_create_file :
    Mode → List ℕ → FileTable → OpenStatus × Option (List ℕ) × FileTable
unfolding contents_of delete_file
open_or_create_file existing name disk = elim (contents_of name disk) [
  | none ↦ (open_fail, none, disk)
  | some bytes ↦ (open_success, some bytes, disk)
]
open_or_create_file emptied name disk =
    (open_success, some [], (name, []) ∷ (delete_file name disk).1)
open_or_create_file appended name disk = elim (contents_of name disk) [
  | none ↦ (open_success, some [], (name, []) ∷ disk)
  | some bytes ↦ (open_success, some bytes, disk)
]

-- The second call of `openForse`, of dataFile.c, when the first one failed.
unfoldable pub open_again :
    List ℕ → OpenStatus × Option (List ℕ) × FileTable → OpenStatus × Option (List ℕ) × FileTable
open_again name (open_success, bytes, disk) = (open_success, bytes, disk)
open_again name (open_fail, bytes, disk) = open_or_create_file appended name disk

unfoldable pub open_forse : List ℕ → FileTable → OpenStatus × Option (List ℕ) × FileTable
unfolding open_again
open_forse name disk = open_again name (open_or_create_file existing name disk)
