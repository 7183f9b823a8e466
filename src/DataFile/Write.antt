-- ===== src/DataFile/Write.antt =====
-- The writing half of dataFile.c.
use llp_base.Common.{ℕ, zero, suc, ◌*◌, List, [], ◌∷◌, ◌++◌, u64, to_le, words_to_le}
use llp_base.OsFile.{
  Io, pure, undefined, ◌>>=◌, ◌>>◌, WriteStatus, write_success, or_write, seek_set, write_file,
}
use llp_base.Schema.{
  TreeMeta, AttributeInfo, TreeSchema, NodeHeader, KeyNode, meta_size, attr_head_size,
  node_head_size,
}
use llp_base.Schema.Sizes.{id_array_size}

-- The bytes of the structs in memory.
unfoldable pub meta_bytes : TreeMeta → List ℕ
meta_bytes m =
    words_to_le
      (m.ascii_sign ∷ m.root_offset ∷ m.first_seq ∷ m.second_seq ∷ m.cur_id ∷ m.template_size ∷ [])

unfoldable pub attr_head_bytes : AttributeInfo → List ℕ
attr_head_bytes a = to_le 4 a.size ++ to_le 4 a.type

unfoldable pub node_head_bytes : NodeHeader → List ℕ
node_head_bytes h = words_to_le (h.parent ∷ h.alloc ∷ [])

unfoldable pub write_tree_meta : TreeMeta → Io WriteStatus
write_tree_meta m = write_file (meta_bytes m) meta_size

-- The loop of `writeAttributesTemplate`; past the end of the array it reads what is no attribute.
unfoldable pub write_attributes : ℕ → List AttributeInfo → WriteStatus → Io WriteStatus
write_attributes zero attrs ret = pure ret
write_attributes (suc n) [] ret = undefined
write_attributes (suc n) (a ∷ attrs) ret = do
  head ← write_file (attr_head_bytes a) attr_head_size
  name ← write_file a.attribute_name a.size
  write_attributes n attrs (or_write (or_write ret head) name)

unfoldable pub write_attributes_template : List AttributeInfo → ℕ → Io WriteStatus
unfolding write_attributes
write_attributes_template attrs size = write_attributes size attrs write_success

unfoldable pub write_root : List ℕ → ℕ → Io WriteStatus
write_root seq size = write_file (words_to_le seq) size

unfoldable pub write_tree_schema : TreeSchema → Io WriteStatus
write_tree_schema s = do
  seek_set 0
  ret ← write_tree_meta s.meta
  seek_set meta_size
  attrs ← write_attributes_template s.nodes_template s.meta.template_size
  root ← write_root s.root (u64 (id_array_size s.meta.template_size s.meta.cur_id * 8))
  pure (or_write (or_write ret attrs) root)

unfoldable pub write_node : KeyNode → ℕ → Io WriteStatus
write_node node size = do
  ret ← write_file (node_head_bytes node.header) node_head_size
  status ← write_file node.contents size
  pure (or_write ret status)
