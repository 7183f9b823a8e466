-- ===== src/Store/Update.antt =====
-- `updateNode` on a stored tree without string attributes.
use mathlib.Core.Path.{subst}
use mathlib.Core.Option.{some-injective}
use llp_base.Common.{
  ◌⊎◌, ℕ, ◌+◌, ◌*◌, ◌^◌, ◌<◌, ◌≤◌, ◌≡◌, inl, inr, sym, ap, ◌∙◌, some, List, ◌++◌, length, set,
  get_elem?, length-set, length-append, length-words_to_le, arith, words_to_le, ne→==-false, lt→ltb,
}
use llp_base.OsFile.{World, ok, splice, seek_set}
use llp_base.Schema.{NodeHeader}
use llp_base.Schema.Sizes.{real_node_size}
use llp_base.DataFile.{node_head_bytes}
use llp_base.DataFile.Bytes.{schema_bytes, length-schema_bytes}
use llp_base.Inner.{word, update_node}
use llp_base.Store.Slots.{IsStore, NodeAt, types_of}
use llp_base.Store.Lookup.{behind_schema, get_types-IsStore, conv_i_to_o-IsStore}
use llp_base.Store.Insert.{length-node_head_bytes}
use llp_base.Store.Get.{read_node-header}
use llp_base.Store.Search.{get_types_of}
use llp_base.Store.Apart.{NodeAt-before, NodeAt-behind}
use llp_base.Store.Overwrite.{splice_inside}
use llp_base.Store.Tree.{TreeNode, IsPlaced, Holds, node_place}
use llp_base.Store.SetValue.{
  set_value, length-set_value, write_node-take, places_apart, data_read-ge, Order-cases,
  set_value-cases,
}
use llp_base.Store.Change

module _ {w : World} {types : List ℕ} {nodes : List TreeNode} (h : Holds w types nodes) (id f v : ℕ)
    (n : TreeNode) (here : get_elem? nodes id ≡ some n) (inside : f < length types)
    (small : v < 2 ^ 64) where
  abbrev t : ℕ
  t = h.tree.meta.template_size

  abbrev i : IsPlaced w h.tree id n
  i = h.placed id n here

  abbrev header : NodeHeader
  header = record { parent = n.parent; alloc = id }

  abbrev new_contents : List ℕ
  new_contents = Change.new_contents h id f v n here inside small

  abbrev new_values : List ℕ
  new_values = Change.new_values h id f v n here inside small

  abbrev written : List ℕ
  written = Change.written h id f v n here inside small

  abbrev updated : World
  updated = Change.updated h id f v n here inside small

  -- What stands in the place of another node is not touched.
  module _ (offset : ℕ) (head : NodeHeader) (us : List ℕ) (at : NodeAt w.bytes offset head us)
      (as_many : length us ≡ length n.values) where
    length-front : length (node_head_bytes head ++ words_to_le us) ≤ length written
    length-front = omega (
      arith,
      length-append {0} (node_head_bytes head) (words_to_le us),
      length-node_head_bytes head,
      length-words_to_le us,
      as_many,
      Change.values_fit h id f v n here inside small,
      Change.length-written h id f v n here inside small,
    )

    in_place : i.offset + length written ≤ length w.bytes
    in_place = omega (
      arith,
      Change.place_inside h id f v n here inside small,
      Change.length-written h id f v n here inside small,
    )

    NodeAt-other :
        (offset + length written ≤ i.offset) ⊎ (i.offset + length written ≤ offset)
        → NodeAt updated.bytes offset head us
    NodeAt-other (inl le) = NodeAt-before at i.offset written in_place length-front le
    NodeAt-other (inr le) = NodeAt-behind at i.offset written in_place le

  updated-IsStore :
      IsStore updated.usable updated.bytes h.tree (splice (id * node_place h.tree) written h.area)
  updated-IsStore = record {
    schema = h.store.schema;
    layout =
        ap (λ b. splice i.offset written b) h.store.layout
        ∙ ap (λ p. splice p written (schema_bytes h.tree ++ h.area)) i.at
        ∙ splice_inside (schema_bytes h.tree) h.area written (id * node_place h.tree);
    small = omega (arith, Change.length-updated h id f v n here inside small, h.store.small);
  }

  self-IsPlaced : IsPlaced updated h.tree id (record n { values = new_values })
  self-IsPlaced = record {
    offset = i.offset;
    slot = i.slot;
    low = i.low;
    high = omega (arith, i.high, Change.length-updated h id f v n here inside small);
    node = Change.NodeAt-updated h id f v n here inside small;
    full = length-set n.values f v ∙ i.full;
    at = i.at;
  }

  updated-IsPlaced :
      (j : ℕ) (m : TreeNode)
      → get_elem? (set_value id f v nodes) j ≡ some m
      → IsPlaced updated h.tree j m
  updated-IsPlaced j m e = elim (set_value-cases id f v nodes j m e) [
    | inr (same, (k, found, new)) ↦
        subst (λ a. IsPlaced updated h.tree a m) (sym same)
          (subst (IsPlaced updated h.tree id)
            (ap (λ (x : TreeNode). record x { values = set x.values f v })
                (some-injective n k (sym here ∙ found))
              ∙ new)
            self-IsPlaced)
    | inl (other, found) ↦
        let p = h.placed j m found in
        let as_many : length m.values ≡ length n.values = p.full ∙ sym i.full in
        record {
          offset = p.offset;
          slot = p.slot;
          low = p.low;
          high = omega (arith, p.high, Change.length-updated h id f v n here inside small);
          node = NodeAt-other p.offset _ m.values p.node as_many (elim (Order-cases j id other) [
            | inl lt ↦ inl (
                omega (
                  arith,
                  p.at,
                  i.at,
                  places_apart j id (node_place h.tree) lt,
                  Change.length-written h id f v n here inside small,
                ))
            | inr lt ↦ inr (
                omega (
                  arith,
                  p.at,
                  i.at,
                  places_apart id j (node_place h.tree) lt,
                  Change.length-written h id f v n here inside small,
                ))
          ]);
          full = p.full;
          at = p.at;
        }
  ]

  -- On a stored tree without string attributes, with a node of that id, an attribute of the template
  -- and a number below 2 ^ 64, `updateNode` succeeds. Afterwards the file holds the same nodes, but
  -- for the value of that attribute of that node.
  pub update_node-Holds :
      (fuel : ℕ)
      → (w' : World) × (update_node fuel f (word v) id w ≡ ok tt w')
        × Holds w' types (set_value id f v nodes)
  unfolding update_node seek_set
  update_node-Holds fuel =
      let typed : f < length (types_of h.tree) = omega (arith, inside, ap length h.typed) in
      let (type, type_here, number) = get_types_of (types_of h.tree) f h.no_strings typed in
      let schema_size = length-schema_bytes h.tree in
      let present = ne→==-false i.offset 0 (λ e. omega (arith, e, i.low, schema_size)) in
      let seek = lt→ltb i.offset (2 ^ 63) (omega (arith, i.high, h.store.small)) in
      let (st, (p, read)) =
        read_node-header t (record w { pos = i.offset }) header
          (words_to_le n.values ++ i.node.more) i.node.parent_word i.node.alloc_word i.node.here in
      let r = data_read-ge t h.store.schema.meta.sizes.attrs in
      (
        updated,
        rw (
          get_types-IsStore w h.store,
          type_here,
          conv_i_to_o-IsStore (behind_schema w h.tree) h.store id i.offset i.slot,
          present,
          seek,
          read,
          number,
          seek,
          write_node-take (record w { pos = i.offset }) header new_contents (real_node_size t)
              (Change.length-new_contents h id f v n here inside small) r.1,
        ),
        record {
          tree = h.tree;
          area = splice (id * node_place h.tree) written h.area;
          store = updated-IsStore;
          typed = h.typed;
          no_strings = h.no_strings;
          count = h.count ∙ sym (length-set_value id f v nodes);
          filled =
              Change.length-updated h id f v n here inside small
              ∙ h.filled
              ∙ ap (λ k. length (schema_bytes h.tree) + k * node_place h.tree)
                  (sym (length-set_value id f v nodes));
          size = h.size;
          placed = updated-IsPlaced;
        },
      )
