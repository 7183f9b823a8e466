-- ===== src/Tests/Trees.antt =====
-- Witnesses of the theorems about whole trees.
use llp_base.Common.{
  ℕ, ◌≡◌, ◌<◌, ◌^◌, refl, some, List, [], ◌∷◌, ◌++◌, map, length, get_elem?, replicate, arith,
}
use llp_base.OsFile.{World, ok, write_success}
use llp_base.BaseApi.{crud_success}
use llp_base.DataFile.{attribute_name_room}
use llp_base.Inner.{word, add_node, get_node, ResultSet, find_by_parent, find_by_field}
use llp_base.Initializer.{init_empty_file, real_size}
use llp_base.Initializer.EmptyFile.{init_empty_file-IsStore}
use llp_base.Initializer.Template.{AreFields, new_tree}
use llp_base.Schema.Sizes.{real_node_size}
use llp_base.Store.Slots.{IsStore}
use llp_base.Store.Get.{Reads}
use llp_base.Store.Tree.{TreeNode, FitsTree, Holds, add_node-Holds}
use llp_base.Store.History.{add_all, all_succeed, get_node-add_all, init_empty_file-Holds}
use llp_base.Store.Search.{matching, found_ids, find_by_parent-Holds, find_by_field-Holds}
use llp_base.Tests.Data.{usable}

abbrev pub empty_world : World
empty_world = record { bytes = []; pos = 0; usable = usable }

abbrev pub blocks : ℕ → List ℕ
blocks n = replicate n 170

-- The attributes "key", an INT, and "on", a BOOL.
abbrev pub names : List (List ℕ)
names = (107 ∷ 101 ∷ 121 ∷ 0 ∷ []) ∷ (111 ∷ 110 ∷ 0 ∷ []) ∷ []

abbrev pub types : List ℕ
types = 0 ∷ 3 ∷ []

abbrev pub sizes : List ℕ
sizes = 3 ∷ 2 ∷ []

pub names-AreFields : AreFields usable blocks names types sizes
unfolding real_size attribute_name_room
names-AreFields = (
  record {
    named = omega arith;
    not_empty = omega arith;
    small = omega arith;
    type_word = omega arith;
    block = refl;
    room = omega arith;
  },
  (
    record {
      named = omega arith;
      not_empty = omega arith;
      small = omega arith;
      type_word = omega arith;
      block = refl;
      room = omega arith;
    },
    tt,
  ),
)

init_empty_file-IsStore_example :
    (w' : World) × (init_empty_file blocks names types (length names) sizes empty_world
      ≡ ok write_success w')
    × IsStore w'.usable w'.bytes (new_tree blocks names types sizes) []
    × (length w'.bytes < 2 ^ 54)
init_empty_file-IsStore_example =
    init_empty_file-IsStore empty_world blocks names types sizes names-AreFields (omega arith) refl

abbrev pub node_blocks : ℕ → List ℕ
node_blocks k = replicate 256 k

abbrev pub first_node : TreeNode
first_node = record { parent = 0; values = 7 ∷ 1 ∷ [] }

abbrev pub second_node : TreeNode
second_node = record { parent = 0; values = 9 ∷ 0 ∷ [] }

pub first_node-FitsTree : FitsTree types first_node (node_blocks 0)
unfolding real_node_size
first_node-FitsTree = record {
  full = refl;
  block_size = refl;
  parent_word = omega arith;
  words = omega arith;
}

pub second_node-FitsTree : FitsTree types second_node (node_blocks 1)
unfolding real_node_size
second_node-FitsTree = record {
  full = refl;
  block_size = refl;
  parent_word = omega arith;
  words = omega arith;
}

get_node-add_all_example :
    (w1 w2 : World) × (init_empty_file blocks names types (length names) sizes empty_world
      ≡ ok write_success w1)
    × (add_all node_blocks 0 (first_node ∷ second_node ∷ []) w1
        ≡ ok (all_succeed (first_node ∷ second_node ∷ [])) w2)
    × ((fuel id : ℕ) (n : TreeNode)
        → get_elem? (first_node ∷ second_node ∷ []) id ≡ some n
        → Reads (get_node fuel id w2) (some (map word n.values)) w2)
get_node-add_all_example =
    get_node-add_all empty_world blocks names types sizes names-AreFields (omega arith) refl
      (refl, (refl, tt)) refl node_blocks (first_node ∷ second_node ∷ [])
      (first_node-FitsTree, (second_node-FitsTree, tt)) (omega arith)

-- The file with no nodes.
abbrev pub started : World
started =
    (init_empty_file-Holds empty_world blocks names types sizes names-AreFields (omega arith) refl
      (refl, (refl, tt)) refl).0

pub started-Holds : Holds started types []
started-Holds =
    (init_empty_file-Holds empty_world blocks names types sizes names-AreFields (omega arith) refl
      (refl, (refl, tt)) refl).2

add_node-Holds_example :
    (w' : World) × (add_node (node_blocks 0) (map word (7 ∷ 1 ∷ [])) 0 started ≡ ok crud_success w')
    × Holds w' types ([] ++ first_node ∷ [])
add_node-Holds_example =
    add_node-Holds started-Holds first_node (node_blocks 0) first_node-FitsTree (omega arith)

-- The file with the first node.
abbrev pub grown : World
grown =
    (add_node-Holds started-Holds first_node (node_blocks 0) first_node-FitsTree (omega arith)).0

pub grown-Holds : Holds grown types ([] ++ first_node ∷ [])
grown-Holds =
    (add_node-Holds started-Holds first_node (node_blocks 0) first_node-FitsTree (omega arith)).2

find_by_parent-Holds_example :
    (rs : ResultSet) × Reads (find_by_parent 0 [] grown) rs grown × (found_ids rs [] ≡ 0 ∷ [])
unfolding matching
find_by_parent-Holds_example = find_by_parent-Holds grown-Holds 0

find_by_field-Holds_example :
    (rs : ResultSet) × Reads (find_by_field 1 0 (word 7) [] grown) rs grown
    × (found_ids rs [] ≡ 0 ∷ [])
unfolding matching
find_by_field-Holds_example = find_by_field-Holds grown-Holds 1 0 7 (omega arith)
