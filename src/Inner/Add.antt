-- ===== src/Inner/Add.antt =====
-- `addNode` and `getNode`.
use llp_base.Common.{
  ℕ, ◌+◌, ◌*◌, Option, none, some, List, [], ◌∷◌, get_elem?, ◌==◌, to_le, if◌then◌else◌,
}
use llp_base.OsFile.{Io, pure, ◌>>=◌, ◌>>◌, seek_set, splice}
use llp_base.Schema.{KeyNode, string_type, node_head_size}
use llp_base.Schema.Sizes.{real_node_size}
use llp_base.DataFile.{read_tree_schema, read_node, read_string_from_node, defined}
use llp_base.BaseApi.{
  CrudStatus, get_types, insert_node_str, insert_node, link_ston, append_to_id_array, conv_i_to_o,
  data_at,
}
use llp_base.Inner.Values.{FieldValue, word, chars, as_word, as_chars}

-- What goes into `data[i]`: the value, or the position of the string's chain.
unfoldable pub store_value : ℕ → ℕ → FieldValue → Io ℕ
store_value size type value =
    if type == string_type
    then (do cs ← as_chars value; insert_node_str cs (real_node_size size))
    else as_word value

-- The loop of `addNode` over the attributes, from attribute `i` on.
unfoldable pub store_values : ℕ → List ℕ → List FieldValue → ℕ → List ℕ → Io (List ℕ)
store_values size [] values i contents = pure contents
store_values size (type ∷ types) values i contents = do
  value ← defined (get_elem? values i)
  link ← store_value size type value
  store_values size types values (i + 1) (splice (8 * i) (to_le 8 link) contents)

-- `fresh` is what the block holds that `malloc` returns for the node's data.
unfoldable pub add_node : List ℕ → List FieldValue → ℕ → Io CrudStatus
unfolding store_values store_value
add_node fresh values parent = do
  (types, size) ← get_types
  (_, schema) ← read_tree_schema
  contents ← store_values size types values 0 fresh
  let node : KeyNode = record {
    header = record { parent = parent; alloc = schema.meta.cur_id };
    contents = contents;
  }
  (status, link) ← insert_node node (node_head_size + real_node_size size)
  link_ston node link
  append_to_id_array link
  pure status

unfoldable pub load_value : ℕ → ℕ → ℕ → ℕ → Io FieldValue
load_value fuel size type field =
    if type == string_type
    then (do cs ← read_string_from_node fuel size field; pure (chars cs))
    else pure (word field)

-- The loop of `getNode` over the attributes, from attribute `i` on.
unfoldable pub load_values : ℕ → ℕ → KeyNode → List ℕ → ℕ → Io (List FieldValue)
load_values fuel size node [] i = pure []
load_values fuel size node (type ∷ types) i = do
  field ← data_at node i
  value ← load_value fuel size type field
  rest ← load_values fuel size node types (i + 1)
  pure (value ∷ rest)

unfoldable pub get_node : ℕ → ℕ → Io (Option (List FieldValue))
unfolding load_values load_value
get_node fuel id = do
  found ← conv_i_to_o id
  elim found [
    | none ↦ pure none
    | some offset ↦ do
      (types, size) ← get_types
      seek_set offset
      (_, node) ← read_node size
      values ← load_values fuel size node types 0
      pure (some values)
  ]
