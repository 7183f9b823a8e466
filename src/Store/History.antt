-- ===== src/Store/History.antt =====
-- A tree from its first file on: `initEmptyFile`, and then `addNode` for one node after the other.
use llp_base.Common.{
  ℕ, suc, ◌+◌, ◌^◌, ◌<◌, ◌≤◌, ◌≡◌, refl, sym, ap, some, List, [], ◌∷◌, ◌++◌, map, length, get_elem?,
  length-append, append_assoc, append-nil, arith,
}
use mathlib.Core.Path.{subst}
use mathlib.Core.Option.{none-ne-some}
use llp_base.OsFile.{World, Io, pure, ◌>>=◌, ok, write_success}
use llp_base.Schema.Sizes.{slots}
use llp_base.DataFile.Bytes.{schema_bytes}
use llp_base.BaseApi.{CrudStatus, crud_success}
use llp_base.Inner.{word, add_node, get_node}
use llp_base.Initializer.{init_empty_file, create_empty_tree_meta}
use llp_base.Initializer.EmptyFile.{init_empty_file-IsStore}
use llp_base.Initializer.Template.{AreFields, new_tree, new_attributes}
use llp_base.Store.Slots.{NoStrings, types_of}
use llp_base.Store.Get.{Reads}
use llp_base.Store.Tree.{TreeNode, Holds, FitsTree, add_node-Holds, get_node-Holds}

module _ (fresh : ℕ → List ℕ) where
  -- `addNode` for each of the nodes; `fresh k` is what the block holds that the k-th call gets.
  unfoldable pub add_all : ℕ → List TreeNode → Io (List CrudStatus)
  add_all k [] = pure []
  add_all k (n ∷ nodes) = do
    status ← add_node (fresh k) (map word n.values) n.parent
    rest ← add_all (suc k) nodes
    pure (status ∷ rest)

  abbrev pub AllFit : List ℕ → ℕ → List TreeNode → Type 0
  AllFit types k [] = Unit {0}
  AllFit types k (n ∷ nodes) = FitsTree types n (fresh k) × AllFit types (suc k) nodes

abbrev pub all_succeed : List TreeNode → List CrudStatus
all_succeed nodes = map (λ _. crud_success) nodes

add_all-Holds :
    (fresh : ℕ → List ℕ) {types : List ℕ} (k : ℕ) (old nodes : List TreeNode) (w : World)
    → Holds w types old
    → AllFit fresh types k nodes
    → length old + length nodes < slots (length types)
    → (w' : World) × (add_all fresh k nodes w ≡ ok (all_succeed nodes) w')
      × Holds w' types (old ++ nodes)
unfolding add_all
add_all-Holds fresh {types} k old [] w h f small =
    (w, refl, subst (Holds w types) (sym (append-nil old)) h)
add_all-Holds fresh {types} k old (n ∷ nodes) w h f small =
    let (w1, added, h1) = add_node-Holds h n (fresh k) f.0 (omega (arith, small)) in
    let (w2, rest, h2) =
      add_all-Holds fresh (suc k) (old ++ n ∷ []) nodes w1 h1 f.1
        (omega (arith, small, length-append {0} old (n ∷ []))) in
    (w2, rw (added, rest) refl, subst (Holds w2 types) (append_assoc old (n ∷ []) nodes) h2)

new_tree-types :
    (usable : ℕ → ℕ) (fresh : ℕ → List ℕ) (template : List (List ℕ)) (types sizes : List ℕ)
    → AreFields usable fresh template types sizes
    → length types ≡ length template
    → types_of (new_tree fresh template types sizes) ≡ types
unfolding new_attributes
new_tree-types usable fresh [] [] sizes f e = refl
new_tree-types usable fresh [] (type ∷ types) sizes f e = absurd (omega arith)
new_tree-types usable fresh (name ∷ template) [] sizes f e = absurd f
new_tree-types usable fresh (name ∷ template) (type ∷ types) [] f e = absurd f
new_tree-types usable fresh (name ∷ template) (type ∷ types) (size ∷ sizes) f e =
    ap (λ t. type ∷ t) (new_tree-types usable fresh template types sizes f.1 (omega arith))

module _ (w : World) (fresh : ℕ → List ℕ) (template : List (List ℕ)) (types sizes : List ℕ)
    (f : AreFields w.usable fresh template types sizes) (few : length template ≤ 2 ^ 20)
    (as_many : length types ≡ length template) (ns : NoStrings types) (empty : w.bytes ≡ []) where
  pub init_empty_file-Holds :
      (w' : World) × (init_empty_file fresh template types (length template) sizes w
        ≡ ok write_success w')
      × Holds w' types []
  unfolding create_empty_tree_meta
  init_empty_file-Holds =
      let (w1, made, store, size) =
        init_empty_file-IsStore w fresh template types sizes f few empty in
      let typed = new_tree-types w.usable fresh template types sizes f as_many in
      (
        w1,
        made,
        record {
          tree = new_tree fresh template types sizes;
          area = [];
          store = store;
          typed = typed;
          no_strings = subst NoStrings (sym typed) ns;
          count = refl;
          filled = omega (
            arith,
            ap length store.layout,
            ap length (append-nil (schema_bytes (new_tree fresh template types sizes))),
          );
          size = omega (
            arith,
            size,
            ap length store.layout,
            length-append {0} (schema_bytes (new_tree fresh template types sizes)) [],
          );
          placed = λ id n e. absurd (none-ne-some n e);
        },
      )

  -- A file made by `initEmptyFile` of attributes that are no strings, and then nodes added one after
  -- the other, fewer than the first array of ids has slots: every call succeeds, and afterwards
  -- `getNode` of each id returns the values of the node that was added as that one, and changes
  -- nothing but the stream's position.
  pub get_node-add_all :
      (blocks : ℕ → List ℕ) (nodes : List TreeNode)
      → AllFit blocks types 0 nodes
      → length nodes < slots (length types)
      → (w1 w2 : World) × (init_empty_file fresh template types (length template) sizes w
          ≡ ok write_success w1)
        × (add_all blocks 0 nodes w1 ≡ ok (all_succeed nodes) w2)
        × ((fuel id : ℕ) (n : TreeNode)
            → get_elem? nodes id ≡ some n
            → Reads (get_node fuel id w2) (some (map word n.values)) w2)
  get_node-add_all blocks nodes fit small =
      let (w1, made, h1) = init_empty_file-Holds in
      let (w2, all, h2) = add_all-Holds blocks 0 [] nodes w1 h1 fit (omega (arith, small)) in
      (w1, w2, made, all, λ fuel id n e. get_node-Holds h2 fuel id n e)
