-- ===== src/Store/Tree.antt =====
-- The store as a list of nodes: what `addNode` and `getNode` do, seen from outside the file.
use llp_base.Common.{
  ℕ, zero, suc, ◌+◌, ◌*◌, ◌^◌, ◌<◌, ◌≤◌, ◌≡◌, ◌⊎◌, inl, inr, refl, sym, ap, ◌∙◌, some, List, [],
  ◌∷◌, ◌++◌, map, length, get_elem?, get_elem?-set_ne, length-append, length-map, arith, AreWords,
}
use mathlib.Core.Path.{subst}
use native.Mathlib.Nat.{mul-le-mul_left, mul-le-mul_right}
use mathlib.Core.Option.{some-injective, none-ne-some}
use llp_base.OsFile.{World, ok}
use llp_base.Schema.{TreeSchema}
use llp_base.Schema.Sizes.{real_node_size, slots}
use llp_base.DataFile.Bytes.{schema_bytes, length-schema_bytes}
use llp_base.BaseApi.{crud_success, attribute_type}
use llp_base.Inner.{word, add_node, get_node}
use llp_base.Store.Slots.{IsStore, NodeAt, NoStrings, types_of, push_id, length-push_id}
use llp_base.Store.Add.{
  CanAdd, added, new_schema, new_area, new_header, new_node_bytes, add_node-added, length_new,
}
use llp_base.Store.AddGet.{added-IsStore, NodeAt-add_node, NodeAt-new, new_slot}
use llp_base.Store.Get.{Reads, get_node-IsStore}

-- A node as its users know it.
pub record TreeNode : Type 0 where
  pub parent : ℕ
  pub values : List ℕ

-- How many bytes a node takes: its header and its block.
abbrev pub node_place : TreeSchema → ℕ
node_place s = 16 + real_node_size s.meta.template_size

-- The node of an id stands behind the schema, where the array of ids says: the nodes in the order of
-- their ids, without gaps.
pub record IsPlaced (w : World) (s : TreeSchema) (id : ℕ) (n : TreeNode) : Type 0 where
  pub offset : ℕ
  pub slot : get_elem? s.root id ≡ some offset
  pub low : length (schema_bytes s) ≤ offset
  pub high : offset ≤ length w.bytes
  pub node : NodeAt w.bytes offset (record { parent = n.parent; alloc = id }) n.values
  pub full : length n.values ≡ length (types_of s)
  pub at : offset ≡ length (schema_bytes s) + id * node_place s

-- The file is a stored tree of these nodes, their ids the places in the list, and of attributes of
-- these types. The schema is at most so large that as many nodes as there can be do not make the
-- file too large.
pub record Holds (w : World) (types : List ℕ) (nodes : List TreeNode) : Type 0 where
  pub tree : TreeSchema
  pub area : List ℕ
  pub store : IsStore w.usable w.bytes tree area
  pub typed : types_of tree ≡ types
  pub no_strings : NoStrings (types_of tree)
  pub count : tree.meta.cur_id ≡ length nodes
  pub filled : length w.bytes ≡ length (schema_bytes tree) + length nodes * node_place tree
  pub size : length (schema_bytes tree) ≤ 2 ^ 60
  pub placed : (id : ℕ) (n : TreeNode) → get_elem? nodes id ≡ some n → IsPlaced w tree id n

-- A node that fits a tree: its values match the types, and the block for them has its size.
pub record FitsTree (types : List ℕ) (n : TreeNode) (block : List ℕ) : Type 0 where
  pub full : length n.values ≡ length types
  pub block_size : length block ≡ real_node_size (length types)
  pub parent_word : n.parent < 2 ^ 64
  pub words : AreWords n.values

schema_not_empty : (s : TreeSchema) → 0 < length (schema_bytes s)
schema_not_empty s = omega (arith, length-schema_bytes s)

snoc-cases :
    (nodes : List TreeNode) (n m : TreeNode) (id : ℕ)
    → get_elem? (nodes ++ n ∷ []) id ≡ some m
    → ((id < length nodes) × (get_elem? nodes id ≡ some m)) ⊎ ((id ≡ length nodes) × (n ≡ m))
snoc-cases [] n m zero e = inr (refl, some-injective n m e)
snoc-cases [] n m (suc id) e = absurd (none-ne-some m e)
snoc-cases (x ∷ nodes) n m zero e = inl (omega arith, e)
snoc-cases (x ∷ nodes) n m (suc id) e = elim (snoc-cases nodes n m id e) [
  | inl h ↦ inl (omega (arith, h.0), h.1)
  | inr h ↦ inr (ap suc h.0, h.1)
]

node_size-bounds : (t : ℕ) → t ≤ 2 ^ 20 → (real_node_size t + 16 ≤ 2 ^ 24) × (slots t ≤ 2 ^ 20 + 34)
unfolding real_node_size
node_size-bounds t h = ground arith

-- What the nodes take, as long as they are fewer than the slots.
places-le : (k p : ℕ) → k ≤ 2 ^ 21 → p ≤ 2 ^ 24 → k * p ≤ 2 ^ 21 * 2 ^ 24
places-le k p few small = omega (arith, mul-le-mul_right p few, mul-le-mul_left (2 ^ 21) small)

one_more : (k p : ℕ) → (k + 1) * p ≡ k * p + p
one_more k p = grind arith

module _ {w : World} {types : List ℕ} {nodes : List TreeNode} (h : Holds w types nodes) where
  -- `getNode` returns the values of the node of that id, and changes nothing.
  pub get_node-Holds :
      (fuel id : ℕ) (n : TreeNode)
      → get_elem? nodes id ≡ some n
      → Reads (get_node fuel id w) (some (map word n.values)) w
  get_node-Holds fuel id n e =
      let p = h.placed id n e in
      get_node-IsStore w h.store h.no_strings fuel id p.offset
        (record { parent = n.parent; alloc = id }) n.values p.full p.slot
        (omega (arith, schema_not_empty h.tree, p.low)) (omega (arith, p.high, h.store.small))
        p.node

  pub template_size-length : h.tree.meta.template_size ≡ length types
  template_size-length =
      h.store.schema.count
      ∙ sym (length-map attribute_type h.tree.nodes_template)
      ∙ ap length h.typed

  module _ (n : TreeNode) (block : List ℕ) (f : FitsTree types n block)
      (slot : length nodes + 1 < slots (length types)) where
    Holds-CanAdd : CanAdd w h.tree h.area n.values block n.parent
    Holds-CanAdd =
        let b = node_size-bounds h.tree.meta.template_size h.store.schema.meta.sizes.attrs in
        let few : length nodes ≤ 2 ^ 21 = omega (arith, b.1, slot, ap slots template_size-length) in
        let places = places-le (length nodes) (node_place h.tree) few (omega (arith, b.0)) in
        record {
          store = h.store;
          no_strings = h.no_strings;
          full = f.full ∙ ap length (sym h.typed);
          block = f.block_size ∙ ap real_node_size (sym template_size-length);
          slot = omega (arith, slot, h.count, ap slots template_size-length);
          room = omega (arith, h.size, h.filled, b.0, places);
          parent_word = f.parent_word;
          words = f.words;
        }

    abbrev new_world : World
    new_world = added Holds-CanAdd

    length-new_world :
        length new_world.bytes ≡ length w.bytes + (real_node_size h.tree.meta.template_size + 16)
    length-new_world = omega (
      arith,
      length_new Holds-CanAdd,
      length-push_id h.tree (length w.bytes),
      ap length h.store.layout,
      length-append {0} (schema_bytes h.tree) h.area,
      length-append {0} h.area (new_node_bytes (new_header Holds-CanAdd) n.values block),
      length-append {0} (schema_bytes (new_schema Holds-CanAdd)) (new_area Holds-CanAdd),
    )

    old-IsPlaced :
        (id : ℕ) (m : TreeNode)
        → id < length nodes
        → IsPlaced w h.tree id m
        → IsPlaced new_world (new_schema Holds-CanAdd) id m
    unfolding push_id
    old-IsPlaced id m lt p = record {
      offset = p.offset;
      slot =
          get_elem?-set_ne h.tree.root h.tree.meta.cur_id id (length w.bytes)
            (λ e. omega (arith, e, h.count))
          ∙ p.slot;
      low = omega (arith, p.low, length-push_id h.tree (length w.bytes));
      high = omega (arith, p.high, length-new_world);
      node =
          NodeAt-add_node Holds-CanAdd p.offset (record { parent = m.parent; alloc = id }) m.values
            p.low p.high p.node;
      full = p.full;
      at = omega (arith, p.at, length-push_id h.tree (length w.bytes));
    }

    new-IsPlaced : IsPlaced new_world (new_schema Holds-CanAdd) (length nodes) n
    unfolding push_id
    new-IsPlaced = record {
      offset = length w.bytes;
      slot = ap (get_elem? (new_schema Holds-CanAdd).root) (sym h.count) ∙ new_slot Holds-CanAdd;
      low = omega (
        arith,
        length-push_id h.tree (length w.bytes),
        ap length h.store.layout,
        length-append {0} (schema_bytes h.tree) h.area,
      );
      high = omega (arith, length-new_world);
      node =
          subst
            (λ id.
              NodeAt new_world.bytes (length w.bytes) (record { parent = n.parent; alloc = id })
                n.values)
            h.count (NodeAt-new Holds-CanAdd);
      full = f.full ∙ ap length (sym h.typed);
      at = omega (arith, h.filled, length-push_id h.tree (length w.bytes));
    }

    -- On a stored tree without string attributes, where the array of ids has more slots than one for
    -- each node and the new one, `addNode` of a node that fits the tree succeeds, and the file then
    -- holds the nodes that it held and, under the next id, the new one.
    pub add_node-Holds :
        (w' : World) × (add_node block (map word n.values) n.parent w ≡ ok crud_success w')
        × Holds w' types (nodes ++ n ∷ [])
    unfolding push_id
    add_node-Holds = (
      new_world,
      add_node-added Holds-CanAdd,
      record {
        tree = new_schema Holds-CanAdd;
        area = new_area Holds-CanAdd;
        store = added-IsStore Holds-CanAdd;
        typed = h.typed;
        no_strings = h.no_strings;
        count = omega (arith, h.count, length-append {0} nodes (n ∷ []));
        filled = omega (
          arith,
          h.filled,
          length-new_world,
          length-push_id h.tree (length w.bytes),
          ap (λ k. k * node_place h.tree) (length-append {0} nodes (n ∷ [])),
          one_more (length nodes) (node_place h.tree),
        );
        size = omega (arith, h.size, length-push_id h.tree (length w.bytes));
        placed = λ id m e. elim (snoc-cases nodes n m id e) [
          | inl k ↦ old-IsPlaced id m k.0 (h.placed id m k.1)
          | inr k ↦
              subst (λ t. IsPlaced new_world (new_schema Holds-CanAdd) t m) (sym k.0)
                (subst (IsPlaced new_world (new_schema Holds-CanAdd) (length nodes)) k.1
                  new-IsPlaced)
        ];
      },
    )
