-- ===== src/Commands/Retrieval.antt =====
-- What `storageRetriveNode` answers.
use llp_base.Common.{
  ℕ, ◌≡◌, refl, ap, ◌∙◌, ◌||◌, ◌==◌, true, some, List, [], ◌∷◌, map, length, get_elem?,
  get_elem?-lt_length, arith, le→ltb-false,
}
use llp_base.OsFile.{World, ok, pure, ◌>>=◌}
use llp_base.Schema.{int_type, bool_type}
use llp_base.Inner.{word, find_by_parent, str_equal}
use llp_base.Text.{c_string, is_numeric}
use llp_base.Commands.{
  listing, fields, atoi, storage_retrive_node, print_fields, parent_text, id_text,
}
use llp_base.Store.Get.{Reads}
use llp_base.Store.Lookup.{behind_schema, read_tree_schema-IsStore}
use llp_base.Store.Moved.{Holds-moved}
use llp_base.Store.Tree.{TreeNode, Holds, get_node-Holds}

pub retrieve_by_parent-children_of_0 :
    (strtod : List ℕ → ℕ) (fuel : ℕ) (types : List ℕ) (names : List (List ℕ)) (command arg : List ℕ)
    (w : World)
    → is_numeric (c_string arg) ≡ some true
    → storage_retrive_node strtod fuel types names (command ∷ parent_text ∷ arg ∷ []) 3 w
      ≡ (find_by_parent 0 [] >>= λ set. pure (listing set)) w
unfolding storage_retrive_node atoi str_equal
retrieve_by_parent-children_of_0 strtod fuel types names command arg w h = rw h refl

-- Every attribute is an INT or a BOOL.
abbrev pub ArePrinted : List ℕ → Type 0
ArePrinted [] = Unit {0}
ArePrinted (type ∷ types) = (((type == int_type) || (type == bool_type)) ≡ true) × ArePrinted types

print_words :
    (strtod : List ℕ → ℕ) (fuel : ℕ) (types values : List ℕ) (w : World)
    → ArePrinted types
    → length values ≡ length types
    → print_fields strtod fuel types (map word values) w ≡ ok tt w
unfolding print_fields
print_words strtod fuel [] values w h e = refl
print_words strtod fuel (type ∷ types) [] w h e = absurd (omega arith)
print_words strtod fuel (type ∷ types) (v ∷ values) w h e =
    rw h.0 (print_words strtod fuel types values w h.1 (omega arith))

-- "find_by id" with the id of a node of a stored tree whose attributes are INT and BOOL answers with
-- the node's values, and changes nothing but the stream's position.
pub retrieve_by_id-Holds :
    (strtod : List ℕ → ℕ) (fuel : ℕ) (names : List (List ℕ)) {types : List ℕ}
    {nodes : List TreeNode} (command arg : List ℕ) (id : ℕ) (n : TreeNode) (w : World)
    → Holds w types nodes
    → ArePrinted types
    → is_numeric (c_string arg) ≡ some true
    → ((w' : World) → atoi arg w' ≡ ok id w')
    → get_elem? nodes id ≡ some n
    → Reads
        (storage_retrive_node strtod fuel types names (command ∷ id_text ∷ arg ∷ []) 3 w)
        (fields (map word n.values))
        w
unfolding storage_retrive_node str_equal
retrieve_by_id-Holds strtod fuel names {types} {nodes} command arg id n w h pr num at e =
    let w1 : World = behind_schema w h.tree in
    let (p, got) = get_node-Holds (Holds-moved w1.pos h) fuel id n e in
    let inside =
      le→ltb-false h.tree.meta.cur_id id
        (omega (arith, h.count, get_elem?-lt_length nodes id n e)) in
    let printed =
      print_words strtod fuel types n.values (record w { pos = p }) pr
        ((h.placed id n e).full ∙ ap length h.typed) in
    (p, rw (num, at w, read_tree_schema-IsStore w h.store, got, inside, h.typed, printed) refl)
