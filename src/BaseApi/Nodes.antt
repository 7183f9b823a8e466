-- ===== src/BaseApi/Nodes.antt =====
-- Nodes: `linkSton`, `swapNode`, `swapLastNode`, `insertNode`, `appendToIdArray`.
use llp_base.Common.{
  ℕ, ◌+◌, ◌-◌, ◌*◌, ◌%◌, ◌^◌, none, some, List, [], ◌∷◌, ◌++◌, length, drop, ◌==◌, u64, to_le,
  words_from_le, if◌then◌else◌, get_elem?,
}
use llp_base.OsFile.{
  Io, pure, ◌>>=◌, ◌>>◌, WriteStatus, write_success, seek_set, seek_end, tell, ftruncate, read_file,
  write_file, splice,
}
use llp_base.Schema.{TreeSchema, KeyNode, next_node, prev_node, string_type, node_head_size}
use llp_base.Schema.Sizes.{real_node_size, id_array_size}
use llp_base.DataFile.{read_tree_schema, read_node, write_tree_schema, write_node, defined}
use llp_base.BaseApi.Ids.{
  CrudStatus, crud_success, crud_fail, data_at, set_root, get_types, get_id_offset,
}

-- The body of `linkSton`'s loop at a string attribute.
unfoldable pub link_string : KeyNode → ℕ → ℕ → ℕ → Io (Unit {0})
link_string node offset size i = do
  str_pos ← data_at node i
  seek_set str_pos
  (_, str) ← read_node size
  seek_set str_pos
  write_node (record str { header = record str.header { parent = offset } }) size
  pure tt

unfoldable pub link_strings : KeyNode → ℕ → ℕ → List ℕ → ℕ → Io (Unit {0})
link_strings node offset size [] i = pure tt
link_strings node offset size (type ∷ types) i = do
  if type == string_type then link_string node offset size i else pure tt
  link_strings node offset size types (i + 1)

unfoldable pub link_ston : KeyNode → ℕ → Io (Unit {0})
unfolding link_strings link_string
link_ston node offset = do (types, size) ← get_types; link_strings node offset size types 0

-- The loop of `swapNode` over the parent's attributes: the first string at `src` is now at `dest`.
unfoldable pub relink_parent : KeyNode → ℕ → ℕ → List ℕ → ℕ → Io KeyNode
relink_parent parent dest src [] i = pure parent
relink_parent parent dest src (type ∷ types) i =
    let rest = relink_parent parent dest src types (i + 1) in
    if type == string_type
    then (do
      link ← data_at parent i
      if link == src
          then pure (record parent { contents = splice (8 * i) (to_le 8 dest) parent.contents })
          else rest)
    else rest

-- `swapNode` for a node of a string chain.
unfoldable pub swap_string_node : ℕ → ℕ → List ℕ → ℕ → Io (Unit {0})
unfolding relink_parent
swap_string_node dest src types size = do
  seek_set src
  (_, node) ← read_node size
  head ←
      (if next_node node.header == 0 then pure [] else do
        seek_set (next_node node.header)
        (_, got) ← read_file node_head_size
        seek_set (next_node node.header)
        write_file (to_le 8 dest ++ drop 8 got) node_head_size
        pure (to_le 8 dest ++ drop 8 got))
  seek_set (prev_node node.header)
  (_, got) ← read_file node_head_size
  let before = got ++ drop (length got) head
  next ← defined (get_elem? (words_from_le before) 1)
  if next == src
      then (do
        seek_set (prev_node node.header)
        write_file (splice 8 (to_le 8 dest) before) node_head_size
        pure tt)
      else do
        seek_set (prev_node node.header)
        (_, parent) ← read_node size
        parent' ← relink_parent parent dest src types 0
        seek_set (prev_node node.header)
        write_node parent' (real_node_size size)
        pure tt

-- `swapNode` for a node of the tree, of the given id.
unfoldable pub swap_tree_node : ℕ → ℕ → TreeSchema → ℕ → ℕ → Io (Unit {0})
swap_tree_node dest src schema size id = do
  seek_set src
  (_, node) ← read_node size
  link_ston node dest
  schema' ← set_root schema id dest
  write_tree_schema schema'
  pure tt

unfoldable pub swap_node : ℕ → ℕ → ℕ → Io (Unit {0})
unfolding swap_string_node swap_tree_node
swap_node dest src node_size = do
  (types, size) ← get_types
  if src == dest then pure tt else do
    seek_set src
    (_, buffer) ← read_file node_size
    seek_set dest
    write_file buffer node_size
    seek_set 0
    (_, schema) ← read_tree_schema
    found ← get_id_offset src
    elim found [
      | none ↦ swap_string_node dest src types size
      | some id ↦ swap_tree_node dest src schema size id
    ]

-- As a `long` the offset of the seek is negative: the seek is refused, and the stream stays behind the
-- schema that `getTypes` has read.
unfoldable pub swap_last_node : ℕ → ℕ → Io (Unit {0})
swap_last_node dest node_size = do
  (_, size) ← get_types
  seek_set (u64 (2 ^ 64 - (real_node_size size + node_head_size)))
  src ← tell
  swap_node dest src node_size
  ftruncate src

crud_of_write : WriteStatus → CrudStatus
crud_of_write write_success = crud_success
crud_of_write _ = crud_fail

-- The position of the node comes with the status.
unfoldable pub insert_node : KeyNode → ℕ → Io (CrudStatus × ℕ)
unfolding crud_of_write
insert_node node full_node_size = do
  seek_end 0
  node_pos ← tell
  ftruncate (node_pos + full_node_size)
  ret ← write_node node (u64 (full_node_size + 2 ^ 64 - node_head_size))
  pure (crud_of_write ret, node_pos)

-- `appendToIdArray` moves the node behind the array away when the array is about to be full.
unfoldable pub grow_id_array : TreeSchema → Io TreeSchema
grow_id_array schema = do
  src ← tell
  if u64 (schema.meta.cur_id + 1) % id_array_size schema.meta.template_size schema.meta.cur_id == 0
      then (do
        seek_end 0
        cur_end ← tell
        ftruncate (cur_end + real_node_size schema.meta.template_size + node_head_size)
        swap_node cur_end src (real_node_size schema.meta.template_size)
        (_, schema') ← read_tree_schema
        pure schema')
      else pure schema

unfoldable pub append_to_id_array : ℕ → Io ℕ
unfolding grow_id_array
append_to_id_array offset = do
  (_, schema) ← read_tree_schema
  schema' ← grow_id_array schema
  schema'' ← set_root schema' schema'.meta.cur_id offset
  seek_set 0
  write_tree_schema
      (record schema'' { meta = record schema''.meta { cur_id = u64 (schema''.meta.cur_id + 1) } })
  pure schema''.meta.cur_id
