-- ===== src/Tests/Data.antt =====
-- A file with one attribute, of type INT and the name `key`, and an allocator that gives blocks of at
-- least 24 bytes, as glibc does.
use llp_base.Common.{ℕ, refl, List, [], ◌∷◌, ◌++◌, replicate, max, arith, to_le, words_to_le}
use llp_base.OsFile.{World}
use llp_base.Schema.{TreeMeta, AttributeInfo, TreeSchema}
use llp_base.Schema.Sizes.{id_array_size, real_node_size}
use llp_base.DataFile.{attribute_name_room, meta_bytes, attr_head_bytes, node_head_bytes}
use llp_base.DataFile.Bytes.{attr_bytes, attrs_bytes, schema_bytes, IsSchema}
use llp_base.Store.Slots.{IsStore, push_id}
use llp_base.Store.Add.{CanAdd, added, new_schema, new_area}
use llp_base.Store.AddGet.{added-IsStore}

abbrev pub usable : ℕ → ℕ
usable n = max n 24

abbrev pub key_attribute : AttributeInfo
key_attribute = record { size = 4; type = 0; attribute_name = b'k' ∷ b'e' ∷ b'y' ∷ 0 ∷ [] }

abbrev pub empty_meta : TreeMeta
empty_meta = record {
  ascii_sign = 0xfffe;
  root_offset = 0;
  first_seq = 0;
  second_seq = 0;
  cur_id = 0;
  template_size = 1;
}

abbrev pub empty_tree : TreeSchema
empty_tree = record {
  nodes_template = key_attribute ∷ [];
  meta = empty_meta;
  root = replicate 34 0;
}

abbrev pub empty_world : World
empty_world = record { bytes = schema_bytes empty_tree ++ []; pos = 0; usable = usable }

pub empty-IsSchema : IsSchema usable empty_tree
unfolding id_array_size real_node_size attribute_name_room
empty-IsSchema = omega arith

pub empty-IsStore : IsStore usable empty_world.bytes empty_tree []
unfolding schema_bytes attrs_bytes attr_bytes meta_bytes attr_head_bytes words_to_le to_le
empty-IsStore = record { schema = empty-IsSchema; layout = refl; small = omega arith }

abbrev pub fresh : List ℕ
fresh = replicate 256 170

pub empty-CanAdd : CanAdd empty_world empty_tree [] (7 ∷ []) fresh 0
unfolding schema_bytes attrs_bytes attr_bytes meta_bytes attr_head_bytes words_to_le to_le
    real_node_size
empty-CanAdd = record {
  store = empty-IsStore;
  no_strings = (refl, tt);
  full = refl;
  block = refl;
  slot = omega arith;
  room = omega arith;
  parent_word = omega arith;
  words = omega arith;
}

-- The file with one node, of the value 7 and the parent 0.
abbrev pub one_world : World
one_world = added empty-CanAdd

abbrev pub one_tree : TreeSchema
one_tree = new_schema empty-CanAdd

pub one-CanAdd : CanAdd one_world one_tree (new_area empty-CanAdd) (9 ∷ []) fresh 0
unfolding schema_bytes attrs_bytes attr_bytes meta_bytes attr_head_bytes words_to_le to_le
    real_node_size push_id node_head_bytes
one-CanAdd = record {
  store = added-IsStore empty-CanAdd;
  no_strings = (refl, tt);
  full = refl;
  block = refl;
  slot = omega arith;
  room = omega arith;
  parent_word = omega arith;
  words = omega arith;
}
