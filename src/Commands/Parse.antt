-- ===== src/Commands/Parse.antt =====
-- storage/Utils/parser.c: the nodes of a text file, one to a line.
use llp_base.Common.{
  ℕ, zero, suc, ◌+◌, ◌-◌, Bool, true, false, List, [], ◌∷◌, ◌++◌, length, take, map, ◌==◌,
  if◌then◌else◌,
}
use llp_base.OsFile.{Io, pure, no_fuel, ◌>>=◌}
use llp_base.DataFile.{defined, read_tree_schema}
use llp_base.BaseApi.{attribute_type, attribute_name_of}
use llp_base.Text.{text_of, c_string, concat, split}
use llp_base.Commands.Insert.{StorageOp, storage_insert_command}

-- `fgets` into a buffer with room for `n` characters: the characters, the rest of the file, and
-- whether the end of the file was met.
unfoldable pub fgets : ℕ → List ℕ → List ℕ × List ℕ × Bool
fgets zero from = ([], from, false)
fgets (suc n) [] = ([], [], true)
fgets (suc n) (c ∷ from) =
    let (line, rest, eof) = fgets n from in
    if c == 10 then (c ∷ [], from, false) else (c ∷ line, rest, eof)

abbrev input_size : ℕ
input_size = 1024

abbrev pub add_prefix : List ℕ
add_prefix = b'a' ∷ b'd' ∷ b'd' ∷ 32 ∷ []

module _ (strtod : List ℕ → ℕ) (behind : List ℕ) (types : List ℕ) (names : List (List ℕ))
    (template_size : ℕ) where
  -- The body of the loop for a line that is not empty; `fresh` is what the block of the node holds.
  unfoldable pub parse_line : List ℕ → List ℕ → Io StorageOp
  parse_line fresh line = do
    prefix ← defined (concat (c_string add_prefix) (c_string (take (length line - 1) line)))
    (_, args) ← defined (split prefix 32 behind)
    storage_insert_command strtod behind types names fresh args template_size

  -- The loop while the end of the file was not met; it ends at a line that begins with a zero byte.
  unfoldable pub parse_lines : ℕ → (ℕ → List ℕ) → List ℕ × List ℕ × Bool → Io (List StorageOp)
  unfolding parse_line fgets
  parse_lines zero fresh (line, rest, eof) = no_fuel
  parse_lines (suc fuel) fresh (line, rest, true) = pure []
  parse_lines (suc fuel) fresh (line, rest, false) = do
    text ← defined (text_of (line ++ 0 ∷ []))
    if length text == 0 then pure [] else do
      op ← parse_line (fresh fuel) text
      ops ← parse_lines fuel fresh (fgets (input_size - 1) rest)
      pure (op ∷ ops)

-- A round for each character of the file, and two more, are enough.
unfoldable pub parse_file : (List ℕ → ℕ) → List ℕ → (ℕ → List ℕ) → List ℕ → Io (List StorageOp)
unfolding parse_lines
parse_file strtod behind fresh from = do
  (_, schema) ← read_tree_schema
  let types = map attribute_type schema.nodes_template
  let names = map attribute_name_of schema.nodes_template
  parse_lines strtod behind types names schema.meta.template_size (length from + 2) fresh
      (fgets (input_size - 1) from)
