-- ===== src/Tests/Changes.antt =====
-- Witnesses of the theorems about nodes that are changed and removed.
use llp_base.Common.{◌≡◌, refl, [], ◌∷◌, length, arith}
use llp_base.OsFile.{World, ok, fault}
use llp_base.BaseApi.{crud_success, swap_last_node}
use llp_base.DataFile.Bytes.{schema_bytes}
use llp_base.Inner.{word, update_node, remove_node}
use llp_base.Store.Tree.{Holds, add_node-Holds}
use llp_base.Store.Update.{update_node-Holds}
use llp_base.Store.Cut.{swap_last_node-schema}
use llp_base.Store.Remove.{remove_node-only, remove_node-first_of_many}
use llp_base.Tests.Data.{empty_tree, empty_world, empty-IsStore}
use llp_base.Tests.Trees.{
  types, node_blocks, first_node, second_node, second_node-FitsTree, grown, grown-Holds,
}

update_node-Holds_example :
    (w' : World) × (update_node 1 1 (word 0) 0 grown ≡ ok tt w')
    × Holds w' types (record { parent = 0; values = 7 ∷ 0 ∷ [] } ∷ [])
update_node-Holds_example =
    update_node-Holds grown-Holds 0 1 0 first_node refl (omega arith) (omega arith) 1

remove_node-only_example :
    (w' : World) × (remove_node 1 0 0 grown ≡ ok crud_success w') × Holds w' types []
remove_node-only_example = remove_node-only 0 grown-Holds

-- The file with both nodes.
abbrev pub both : World
both = (add_node-Holds grown-Holds second_node (node_blocks 1) second_node-FitsTree (omega arith)).0

pub both-Holds : Holds both types (first_node ∷ second_node ∷ [])
both-Holds =
    (add_node-Holds grown-Holds second_node (node_blocks 1) second_node-FitsTree (omega arith)).2

remove_node-first_of_many_example : remove_node 1 0 0 both ≡ fault
remove_node-first_of_many_example = remove_node-first_of_many 0 both-Holds

swap_last_node-schema_example :
    swap_last_node (length (schema_bytes empty_tree)) 256 empty_world
    ≡ ok tt (record empty_world {
      bytes = schema_bytes empty_tree;
      pos = length (schema_bytes empty_tree);
    })
swap_last_node-schema_example = swap_last_node-schema empty_world empty-IsStore 256
