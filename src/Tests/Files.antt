-- ===== src/Tests/Files.antt =====
-- Witnesses of the theorems about files.
use llp_base.Common.{
  ◌≡◌, ◌≤◌, ◌<◌, ◌+◌, ◌%◌, refl, [], ◌∷◌, ◌++◌, map, length, drop, max, arith, some, to_le,
  words_to_le,
}
use llp_base.OsFile.{World, ok, fault, read_success, ◌>>=◌}
use llp_base.Schema.{TreeSchema}
use llp_base.Schema.Sizes.{slots, id_array_size, id_array_size_bounds}
use llp_base.DataFile.{
  read_tree_schema, write_tree_schema, read_attribute, attribute_name_room, meta_bytes,
  attr_head_bytes,
}
use llp_base.DataFile.Bytes.{attr_bytes, attrs_bytes, schema_bytes}
use llp_base.DataFile.RoundTrip.{read_tree_schema-write_tree_schema}
use llp_base.DataFile.Allocation.{read_attribute-overflow}
use llp_base.BaseApi.{crud_success, append_to_id_array}
use llp_base.Inner.{word, add_node, get_node}
use llp_base.Store.Slots.{IsStore, push_id}
use llp_base.Store.Append.{append_to_id_array-full}
use llp_base.Store.Get.{Reads}
use llp_base.Store.Add.{new_node_bytes}
use llp_base.Store.AddGet.{
  add_node-IsStore, get_node-add_node_self, get_node-add_node_ne, NodeAt-new, new_slot,
}
use llp_base.Tests.Data.{
  usable, key_attribute, empty_meta, empty_tree, empty_world, empty-IsSchema, empty-CanAdd,
  one_world, one-CanAdd, fresh,
}

get_node-add_node_self_example :
    (w' : World) × (add_node fresh (map word (7 ∷ [])) 0 empty_world ≡ ok crud_success w')
    × Reads (get_node 1 0 w') (some (map word (7 ∷ []))) w'
get_node-add_node_self_example = get_node-add_node_self empty-CanAdd 1

get_node-add_node_ne_example :
    (w' : World) × (add_node fresh (map word (9 ∷ [])) 0 one_world ≡ ok crud_success w')
    × Reads (get_node 1 0 one_world) (some (map word (7 ∷ []))) one_world
    × Reads (get_node 1 0 w') (some (map word (7 ∷ []))) w'
unfolding schema_bytes attrs_bytes attr_bytes meta_bytes attr_head_bytes words_to_le to_le push_id
get_node-add_node_ne_example =
    get_node-add_node_ne one-CanAdd 1 0 (length empty_world.bytes)
      (record { parent = 0; alloc = 0 }) (7 ∷ []) (omega arith) (new_slot empty-CanAdd)
      (omega arith) (omega arith) (NodeAt-new empty-CanAdd) refl

add_node-IsStore_example :
    (w' : World) × (add_node fresh (map word (7 ∷ [])) 0 empty_world ≡ ok crud_success w')
    × IsStore w'.usable w'.bytes
        (push_id empty_tree (length empty_world.bytes))
        ([] ++ new_node_bytes (record { parent = 0; alloc = 0 }) (7 ∷ []) fresh)
add_node-IsStore_example = add_node-IsStore empty-CanAdd

read_tree_schema-write_tree_schema_example :
    (write_tree_schema empty_tree >>= λ _. read_tree_schema)
      (record { bytes = 1 ∷ 2 ∷ []; pos = 1; usable = usable })
    ≡ ok
        (read_success, empty_tree)
        (record {
          bytes = schema_bytes empty_tree ++ drop (length (schema_bytes empty_tree)) (1 ∷ 2 ∷ []);
          pos = length (schema_bytes empty_tree);
          usable = usable;
        })
read_tree_schema-write_tree_schema_example =
    read_tree_schema-write_tree_schema (record { bytes = 1 ∷ 2 ∷ []; pos = 1; usable = usable })
      empty_tree empty-IsSchema

id_array_size_bounds_example :
    (max 35 1 ≤ id_array_size 5 35)
    × (id_array_size 5 35 < max 35 1 + slots 5)
    × (id_array_size 5 35 % slots 5 ≡ 0)
id_array_size_bounds_example =
    id_array_size_bounds {t = 5} {c = 35} (record { attrs = omega arith; ids = omega arith })

-- The allocator that gives what it is asked for.
abbrev exact_world : World
exact_world = record { bytes = attr_bytes key_attribute ++ []; pos = 0; usable = λ n. n }

read_attribute-overflow_example : read_attribute exact_world ≡ fault
unfolding attribute_name_room
read_attribute-overflow_example =
    read_attribute-overflow exact_world key_attribute [] refl (omega arith) refl (omega arith) refl
      refl

-- The tree with all 34 ids of the first place in use.
abbrev full_tree : TreeSchema
full_tree = record empty_tree { meta = record empty_meta { cur_id = 34 } }

abbrev full_world : World
full_world = record { bytes = schema_bytes full_tree ++ []; pos = 0; usable = usable }

full-IsStore : IsStore usable full_world.bytes full_tree []
unfolding schema_bytes attrs_bytes attr_bytes meta_bytes attr_head_bytes words_to_le to_le
    id_array_size attribute_name_room
full-IsStore = record { schema = omega arith; layout = refl; small = omega arith }

append_to_id_array-full_example : append_to_id_array 400 full_world ≡ fault
append_to_id_array-full_example =
    append_to_id_array-full full_world 400 full-IsStore (omega arith) refl
