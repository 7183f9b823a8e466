-- ===== src/Inner/Find.antt =====
-- `findByParent`, `findByField`, `updateNode`.
use llp_base.Common.{ℕ, zero, suc, ◌+◌, ◌*◌, Bool, get_elem?, ◌==◌, to_le, if◌then◌else◌}
use llp_base.OsFile.{Io, pure, ◌>>=◌, ◌>>◌, seek_set, splice}
use llp_base.Schema.{TreeSchema, KeyNode, string_type}
use llp_base.Schema.Sizes.{real_node_size}
use llp_base.DataFile.{read_tree_schema, read_node, read_string_from_node, write_node, defined}
use llp_base.BaseApi.{get_types, conv_i_to_o, root_at, data_at, change_str_node}
use llp_base.Inner.Values.{
  FieldValue, as_word, as_chars, ResultSet, append_to_result_set, str_equal,
}

-- The loops over the ids: the nodes that pass the test are added to the result set.
unfoldable pub scan : (KeyNode → Io Bool) → TreeSchema → ℕ → ℕ → ResultSet → Io ResultSet
scan test schema zero i set = pure set
scan test schema (suc left) i set = do
  offset ← root_at schema i
  set' ←
      (if offset == 0 then pure set else do
        seek_set offset
        (_, node) ← read_node schema.meta.template_size
        passes ← test node
        pure (if passes then append_to_result_set node i set else set))
  scan test schema left (i + 1) set'

unfoldable pub find_by_parent : ℕ → ResultSet → Io ResultSet
find_by_parent parent set = do
  (_, schema) ← read_tree_schema
  scan (λ node. pure (node.header.parent == parent)) schema schema.meta.cur_id 0 set

-- The test of `findByField`.
unfoldable pub field_matches : ℕ → ℕ → ℕ → ℕ → FieldValue → KeyNode → Io Bool
field_matches fuel size type field_number condition node = do
  field ← data_at node field_number
  if type == string_type
      then (do
        s ← read_string_from_node fuel size field
        cs ← as_chars condition
        defined (str_equal s cs))
      else (do n ← as_word condition; pure (field == n))

unfoldable pub find_by_field : ℕ → ℕ → FieldValue → ResultSet → Io ResultSet
unfolding scan field_matches
find_by_field fuel field_number condition set = do
  (types, size) ← get_types
  type ← defined (get_elem? types field_number)
  (_, schema) ← read_tree_schema
  scan (field_matches fuel size type field_number condition) schema schema.meta.cur_id 0 set

-- When `convItoO` fails, `offset` is never set, and the seek that follows uses it.
unfoldable pub update_node : ℕ → ℕ → FieldValue → ℕ → Io (Unit {0})
update_node fuel field_number new_value id = do
  (types, size) ← get_types
  type ← defined (get_elem? types field_number)
  found ← conv_i_to_o id
  offset ← defined found
  seek_set offset
  (_, node) ← read_node size
  if type == string_type
      then (do
        link ← data_at node field_number
        cs ← as_chars new_value
        change_str_node fuel link cs (real_node_size size))
      else (do
        n ← as_word new_value
        seek_set offset
        write_node (record node { contents = splice (8 * field_number) (to_le 8 n) node.contents })
            (real_node_size size)
        pure tt)
