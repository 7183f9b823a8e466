-- ===== src/BaseApi/Ids.antt =====
-- The array of ids: `getTypes`, `getIdOffset`, `convItoO`, `convOtoI`, `removeFromIdArray`.
use llp_base.Common.{
  ℕ, ◌+◌, ◌-◌, ◌^◌, Option, none, some, List, map, length, get_elem?, set, ltb, ◌==◌, u64,
  words_from_le, if◌then◌else◌,
}
use llp_base.OsFile.{Io, pure, undefined, ◌>>=◌, ◌>>◌, seek_set, ftruncate, seek_end, tell}
use llp_base.Schema.{AttributeInfo, TreeSchema, KeyNode}
use llp_base.DataFile.{read_tree_schema, read_node, write_tree_schema, defined}

pub data CrudStatus : Type 0 where
  crud_success crud_eof crud_fail : CrudStatus

-- `schema->root[id]` and `node->data[i]`.
abbrev pub root_at : TreeSchema → ℕ → Io ℕ
root_at s id = defined (get_elem? s.root id)

abbrev pub data_at : KeyNode → ℕ → Io ℕ
data_at node i = defined (get_elem? (words_from_le node.contents) i)

-- `schema->root[id] = offset`.
unfoldable pub set_root : TreeSchema → ℕ → ℕ → Io TreeSchema
set_root s id offset =
    if ltb id (length s.root) then pure (record s { root = set s.root id offset }) else undefined

abbrev pub attribute_type : AttributeInfo → ℕ
attribute_type a = a.type

abbrev pub attribute_name_of : AttributeInfo → List ℕ
attribute_name_of a = a.attribute_name

unfoldable pub get_types : Io (List ℕ × ℕ)
get_types = do
  seek_set 0
  (_, schema) ← read_tree_schema
  pure (map attribute_type schema.nodes_template, schema.meta.template_size)

unfoldable pub get_id_offset : ℕ → Io (Option ℕ)
get_id_offset offset = do
  (_, schema) ← read_tree_schema
  seek_set offset
  (_, node) ← read_node schema.meta.template_size
  slot ← root_at schema node.header.alloc
  pure (if slot == offset then some node.header.alloc else none)

unfoldable pub conv_o_to_i : ℕ → Io (Option ℕ)
conv_o_to_i offset = do
  (_, schema) ← read_tree_schema
  seek_set offset
  (_, node) ← read_node schema.meta.template_size
  slot ← root_at schema node.header.alloc
  pure (if slot == offset then some node.header.alloc else none)

unfoldable pub conv_i_to_o : ℕ → Io (Option ℕ)
conv_i_to_o id = do
  seek_set 0
  (_, schema) ← read_tree_schema
  slot ← root_at schema id
  pure (if slot == 0 then none else some slot)

-- The last id is given up when its node is removed.
unfoldable pub drop_id : TreeSchema → ℕ → TreeSchema
drop_id s id =
    if u64 (s.meta.cur_id + 2 ^ 64 - 1) == id
    then record s { meta = record s.meta { cur_id = u64 (s.meta.cur_id + 2 ^ 64 - 1) } }
    else s

unfoldable pub remove_from_id_array : ℕ → Io (Option ℕ)
remove_from_id_array id = do
  seek_set 0
  (_, schema) ← read_tree_schema
  slot ← root_at schema id
  if slot == 0 then pure none else do
    schema' ← set_root (drop_id schema id) id 0
    write_tree_schema schema'
    pure (some slot)

-- `deleteLastNode`, as written: the seek goes `nodeSize` bytes behind the end.
unfoldable pub delete_last_node : ℕ → Io (Unit {0})
delete_last_node node_size = do seek_end node_size; size ← tell; ftruncate size
