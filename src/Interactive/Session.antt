-- ===== src/Interactive/Session.antt =====
-- `start`: the loop of commands.
use llp_base.Common.{
  ℕ, ◌+◌, Bool, List, [], ◌∷◌, length, get_elem?, map, ◌==◌, codes, if◌then◌else◌,
}
use llp_base.OsFile.{Io, pure, ◌>>=◌}
use llp_base.DataFile.{defined, read_tree_schema}
use llp_base.BaseApi.{attribute_type, attribute_name_of}
use llp_base.Inner.{str_equal}
use llp_base.Text.{c_string, split}
use llp_base.Commands.{
  Answer, StorageOp, storage_retrive_node, storage_insert_command, storage_update_command,
  storage_delete_node,
}
use llp_base.Print.{print_nodes_from, print_tree_schema}

-- What a command answers; `wrong_number` and the three after it are complaints about its parameters.
pub data Reply : Type 0 where
  helped : Reply
  retrieved : Answer → Reply
  added updated deleted : StorageOp → Reply
  printed : List ℕ → Reply
  wrong_number missing_parameter too_many incorrect_parameter unknown_command : Reply

-- Whether the input that was given made the loop end, or it waits for the next line.
pub data Outcome : Type 0 where
  exited waiting : Outcome

-- `strcmp(word, text) == 0`, of an argument of the line.
unfoldable pub word_is : List ℕ → List ℕ → Io Bool
word_is word text = defined (str_equal (c_string word) (c_string text))

-- What the functions outside the repository and the memory that is not set do: `strtod` and
-- `show_double` for floats, `behind` what stands behind the delimiter of `split`, `at_value` as in
-- `storage_update_command`.
pub record Surroundings : Type 0 where
  pub strtod : List ℕ → ℕ
  pub show_double : ℕ → List ℕ
  pub behind : List ℕ
  pub at_value : List ℕ
  pub fuel : ℕ

module _ (env : Surroundings) (types : List ℕ) (names : List (List ℕ)) (template_size : ℕ) where
  unfoldable pub print_command : List (List ℕ) → ℕ → Io Reply
  unfolding word_is
  print_command argv count =
      if count == 2
      then (do
        what ← defined (get_elem? argv 1)
        schema ← word_is what (codes "schema")
        nodes ← word_is what (codes "nodes")
        if schema
            then (do text ← print_tree_schema; pure (printed text))
            else if nodes
            then (do text ← print_nodes_from env.show_double env.fuel; pure (printed text))
            else pure incorrect_parameter)
      else pure (if count == 1 then missing_parameter else too_many)

  unfoldable pub remove_command : List (List ℕ) → ℕ → Io Reply
  remove_command argv count =
      if count == 2
      then (do
        id ← defined (get_elem? argv 1)
        op ← storage_delete_node env.fuel id 0
        pure (deleted op))
      else pure (if count == 1 then missing_parameter else too_many)

  unfoldable pub add_command : List ℕ → List (List ℕ) → ℕ → Io Reply
  add_command fresh argv count =
      if count == template_size + 2
      then (do
        op ← storage_insert_command env.strtod env.behind types names fresh argv template_size
        pure (added op))
      else pure wrong_number

  -- The body of the loop, for a line that is not "exit".
  unfoldable pub run_line : List ℕ → List ℕ → List (List ℕ) → ℕ → Io Reply
  unfolding print_command remove_command add_command word_is
  run_line fresh command argv count = do
    help ← word_is command (codes "help")
    find ← word_is command (codes "find_by")
    add ← word_is command (codes "add")
    update ← word_is command (codes "update")
    remove ← word_is command (codes "remove")
    print ← word_is command (codes "print")
    if help
        then pure helped
        else if find
        then (do
          answer ← storage_retrive_node env.strtod env.fuel types names argv count
          pure (retrieved answer))
        else if add
        then add_command fresh argv count
        else if update
        then (do
          op ←
              storage_update_command env.strtod env.behind types names env.fuel env.at_value argv
                count
          pure (updated op))
        else if remove
        then remove_command argv count
        else if print
        then print_command argv count
        else pure unknown_command

  -- The loop over the lines; `blocks` has for each what the block of a new node holds.
  unfoldable pub run_lines : (ℕ → List ℕ) → List (List ℕ) → Io (List Reply × Outcome)
  unfolding run_line
  run_lines blocks [] = pure ([], waiting)
  run_lines blocks (line ∷ lines) = do
    (count, argv) ← defined (split (c_string line) 32 env.behind)
    command ← defined (get_elem? argv 0)
    leave ← word_is command (codes "exit")
    if leave then pure ([], exited) else do
      reply ← run_line (blocks (length lines)) command argv count
      (replies, outcome) ← run_lines blocks lines
      pure (reply ∷ replies, outcome)

-- The lines of the input that are complete, each with its line feed.
unfoldable pub lines_of : List ℕ → List (List ℕ)
lines_of [] = []
lines_of (c ∷ input) =
    let rest = lines_of input in if c == 10 then (c ∷ []) ∷ rest else before c rest
  where
    before : ℕ → List (List ℕ) → List (List ℕ)
    before c [] = []
    before c (line ∷ lines) = (c ∷ line) ∷ lines

-- An empty line at the beginning, which `scanf` may have left, is passed over.
unfoldable pub skip_first : List (List ℕ) → List (List ℕ)
skip_first [] = []
skip_first ([] ∷ lines) = [] ∷ lines
skip_first ((c ∷ line) ∷ lines) = if c == 10 then lines else (c ∷ line) ∷ lines

unfoldable pub start : Surroundings → (ℕ → List ℕ) → List ℕ → Io (List Reply × Outcome)
unfolding run_lines lines_of skip_first
start env blocks input = do
  (_, schema) ← read_tree_schema
  run_lines env (map attribute_type schema.nodes_template)
      (map attribute_name_of schema.nodes_template) schema.meta.template_size blocks
      (skip_first (lines_of input))
