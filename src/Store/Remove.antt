-- ===== src/Store/Remove.antt =====
-- `removeNode` on a stored tree without string attributes.
use mathlib.Core.Option.{none-ne-some}
use llp_base.Common.{
  ℕ, zero, suc, ◌^◌, ◌<◌, ◌≤◌, ◌≡◌, refl, sym, ap, ◌∙◌, some, Bool, drop-nil, List, [], ◌∷◌, ◌++◌,
  length, drop, get_elem?, get_elem?-lt_length, get_elem?-set_self, get_elem?-set_ne, length-append,
  append-nil, arith, words_from_le, ◌==◌, ne→==-false, lt→ltb,
}
use llp_base.OsFile.{World, Io, read_file, ok, pure, ◌>>=◌, fault, seek_set}
use llp_base.Schema.{TreeSchema, KeyNode}
use llp_base.Schema.Sizes.{real_node_size, id_array_size}
use llp_base.DataFile.{header_of_words, read_node}
use llp_base.DataFile.Bytes.{IsSchema, schema_bytes, length-schema_bytes}
use llp_base.BaseApi.{crud_success}
use llp_base.Inner.{remove_node, remove_tree, remove_each, find_by_parent, scan}
use llp_base.Store.Slots.{IsStore, types_of}
use llp_base.Store.Lookup.{behind_schema, read_tree_schema-IsStore, get_types-IsStore}
use llp_base.Store.Tree.{TreeNode, IsPlaced, Holds}
use llp_base.Store.Cut.{
  without_id, taken_out, swap_last_node-schema, no_strings, without_last, without_other,
  taken_out-IsSchema, length-taken_out, remove_from_id_array-IsStore,
}

module _ {w : World} {types : List ℕ} {n : TreeNode} {nodes : List TreeNode}
    (h : Holds w types (n ∷ nodes)) (c : ℕ) (out : without_id h.tree 0 ≡ taken_out h.tree 0 c)
    (is : IsSchema w.usable (taken_out h.tree 0 c)) where
  first : IsPlaced w h.tree 0 n
  first = h.placed 0 n refl

  first_at : first.offset ≡ length (schema_bytes h.tree)
  first_at = omega (arith, first.at)

  -- The file is cut behind the schema, and there nothing is left of the nodes.
  abbrev cut : World
  cut = record w {
    bytes = schema_bytes (taken_out h.tree 0 c);
    pos = length (schema_bytes (taken_out h.tree 0 c));
  }

  cut-IsStore : IsStore cut.usable cut.bytes (taken_out h.tree 0 c) []
  cut-IsStore = record {
    schema = is;
    layout = sym (append-nil (schema_bytes (taken_out h.tree 0 c)));
    small = omega (
      arith,
      length-taken_out h.tree 0 c,
      h.store.small,
      ap length h.store.layout,
      length-append {0} (schema_bytes h.tree) h.area,
    );
  }

  remove_tree-cut :
      (fuel : ℕ)
      → remove_tree (suc fuel) 0 w
        ≡ (find_by_parent 0 [] >>= λ children.
              remove_each (λ child. remove_tree fuel child) children >>= λ _. pure crud_success)
            cut
  unfolding remove_tree
  remove_tree-cut fuel =
      let s' : TreeSchema = taken_out h.tree 0 c in
      let w1 : World = record w {
        bytes = schema_bytes s' ++ h.area;
        pos = length (schema_bytes h.tree);
      } in
      let same = length-taken_out h.tree 0 c in
      let size : length w1.bytes ≡ length w.bytes = omega (
        arith,
        same,
        ap length h.store.layout,
        length-append {0} (schema_bytes h.tree) h.area,
        length-append {0} (schema_bytes s') h.area,
      ) in
      let store1 : IsStore w1.usable w1.bytes s' h.area = record {
        schema = is;
        layout = refl;
        small = omega (arith, size, h.store.small);
      } in
      rw (
        get_types-IsStore w h.store,
        remove_from_id_array-IsStore (behind_schema w h.tree) h.store 0 first.offset s' first.slot
            (omega (arith, first_at, length-schema_bytes h.tree)) out is same,
        no_strings fuel first.offset h.tree.meta.template_size (types_of h.tree) 0 w1 h.no_strings,
        first_at,
        ← same,
        swap_last_node-schema (behind_schema w1 s') store1
            (real_node_size h.tree.meta.template_size),
      )

only-IsSchema :
    {w : World} {types : List ℕ} {n : TreeNode} (h : Holds w types (n ∷ []))
    → IsSchema w.usable (taken_out h.tree 0 0)
unfolding id_array_size
only-IsSchema {w} h =
    taken_out-IsSchema w.usable h.tree 0 0 h.store.schema (omega (arith, h.count)) (rw h.count refl)

-- On a stored tree of one node, without string attributes, `removeNode` of that node and all that is
-- in it succeeds and leaves the tree without nodes.
pub remove_node-only :
    {w : World} {types : List ℕ} {n : TreeNode} (fuel : ℕ)
    → Holds w types (n ∷ [])
    → (w' : World) × (remove_node (suc fuel) 0 0 w ≡ ok crud_success w') × Holds w' types []
unfolding remove_node find_by_parent scan remove_each
remove_node-only {w} {types} fuel h =
    let is = only-IsSchema h in
    let out = without_last h.tree 0 h.count (omega arith) in
    let w' : World = cut h 0 out is in
    let store : IsStore w'.usable w'.bytes (taken_out h.tree 0 0) [] = cut-IsStore h 0 out is in
    (
      w',
      remove_tree-cut h 0 out is fuel ∙ rw (read_tree_schema-IsStore w' store) refl,
      record {
        tree = taken_out h.tree 0 0;
        area = [];
        store = store;
        typed = h.typed;
        no_strings = h.no_strings;
        count = refl;
        filled = omega arith;
        size = omega (arith, length-taken_out h.tree 0 0, h.size);
        placed = λ id m e. absurd (none-ne-some m e);
      },
    )

-- A node that is to be read where the file has ended.
read_node-ended : (t : ℕ) (w : World) → drop w.pos w.bytes ≡ [] → read_node t w ≡ fault
unfolding read_node read_file header_of_words words_from_le
read_node-ended t w h = rw h refl

drop-ge : (n : ℕ) (bs : List ℕ) → length bs ≤ n → drop n bs ≡ []
drop-ge n [] h = drop-nil n
drop-ge zero (b ∷ bs) h = absurd (omega arith)
drop-ge (suc n) (b ∷ bs) h = drop-ge n bs (omega arith)

-- The first slot is passed over, and the node of the second is gone.
scan-ended :
    (test : KeyNode → Io Bool) (s : TreeSchema) (left offset : ℕ) (w : World)
    → get_elem? s.root 0 ≡ some 0
    → get_elem? s.root 1 ≡ some offset
    → 0 < offset
    → offset < 2 ^ 63
    → length w.bytes ≤ offset
    → scan test s (suc (suc left)) 0 [] w ≡ fault
unfolding scan seek_set
scan-ended test s left offset w none_here here pos small ended = rw (
  none_here,
  here,
  ne→==-false offset 0 (λ e. omega (arith, e)),
  lt→ltb offset (2 ^ 63) small,
  read_node-ended s.meta.template_size (record w { pos = offset }) (drop-ge offset w.bytes ended),
)

-- On a stored tree of two nodes or more, without string attributes, `removeNode` of the first one and all
-- that is in it ends in a fault: it reads a node that it has itself cut off the file.
pub remove_node-first_of_many :
    {w : World} {types : List ℕ} {n m : TreeNode} {nodes : List TreeNode} (fuel : ℕ)
    → Holds w types (n ∷ m ∷ nodes)
    → remove_node (suc fuel) 0 0 w ≡ fault
unfolding remove_node find_by_parent
remove_node-first_of_many {w} {m = m} {nodes} fuel h =
    let ids = h.store.schema.meta.sizes.ids in
    let out = without_other h.tree 0 (omega (arith, h.count)) ids in
    let is =
      taken_out-IsSchema w.usable h.tree 0 h.tree.meta.cur_id h.store.schema (omega arith) refl in
    let w' : World = cut h h.tree.meta.cur_id out is in
    let s' : TreeSchema = taken_out h.tree 0 h.tree.meta.cur_id in
    let store : IsStore w'.usable w'.bytes s' [] = cut-IsStore h h.tree.meta.cur_id out is in
    let p = h.placed 1 m refl in
    let slots_there = get_elem?-lt_length h.tree.root 1 p.offset p.slot in
    let same = length-taken_out h.tree 0 h.tree.meta.cur_id in
    let test : KeyNode → Io Bool = λ node. pure (node.header.parent == 0) in
    let ended : scan test s' (suc (suc (length nodes))) 0 [] (behind_schema w' s') ≡ fault =
      scan-ended test s' (length nodes) p.offset (behind_schema w' s')
        (get_elem?-set_self h.tree.root 0 0 (omega (arith, slots_there)))
        (get_elem?-set_ne h.tree.root 0 1 0 (λ e. omega (arith, e)) ∙ p.slot)
        (omega (arith, p.low, length-schema_bytes h.tree)) (omega (arith, p.high, h.store.small))
        (omega (arith, p.low, same)) in
    remove_tree-cut h h.tree.meta.cur_id out is fuel
    ∙ rw (
      read_tree_schema-IsStore w' store,
      ap (λ k. scan test s' k 0 [] (behind_schema w' s')) h.count,
      ended,
    )
