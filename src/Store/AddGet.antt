-- ===== src/Store/AddGet.antt =====
-- A stored tree after `addNode`: it is a stored tree again, with the new node and all the old ones.
use llp_base.Common.{
  ℕ, zero, suc, ◌+◌, ◌-◌, ◌*◌, ◌<◌, ◌≤◌, ◌≡◌, ◌≢◌, refl, sym, ap, ◌∙◌, some, List, [], ◌∷◌, ◌++◌,
  map, length, drop, get_elem?, append_assoc, drop-append, drop-drop, length-append, arith,
  words_to_le, get_elem?-set_self, get_elem?-set_ne,
}
use llp_base.OsFile.{World, ok}
use llp_base.Schema.{NodeHeader, TreeSchema}
use llp_base.DataFile.{node_head_bytes}
use llp_base.DataFile.Bytes.{schema_bytes, length-schema_bytes}
use llp_base.BaseApi.{crud_success}
use llp_base.Inner.{word, add_node, get_node}
use llp_base.Store.Slots.{
  IsStore, NodeAt, types_of, push_id, push_id-IsSchema, length-push_id, id_array_size-first,
}
use llp_base.Store.Add.{
  CanAdd, new_node_bytes, new_header, new_area, new_schema, added, length_new, add_node-added,
}
use llp_base.Store.Get.{Reads, get_node-IsStore}

drop_in_area :
    (k : ℕ) (xs ys zs : List ℕ)
    → length xs ≡ length ys
    → drop (length xs + k) (ys ++ zs) ≡ drop k zs
drop_in_area k xs ys zs e =
    ap (λ n. drop (n + k) (ys ++ zs)) e
    ∙ drop-drop (length ys) k (ys ++ zs)
    ∙ ap (drop k) (drop-append ys zs)

drop_more : (k : ℕ) (xs ys : List ℕ) → k ≤ length xs → drop k (xs ++ ys) ≡ drop k xs ++ ys
drop_more zero xs ys h = refl
drop_more (suc k) [] ys h = absurd (omega arith)
drop_more (suc k) (x ∷ xs) ys h = drop_more k xs ys (omega arith)

module _ {w : World} {s : TreeSchema} {area values fresh : List ℕ} {parent : ℕ}
    (c : CanAdd w s area values fresh parent) where
  -- The file after `addNode`.
  pub added-IsStore : IsStore (added c).usable (added c).bytes (new_schema c) (new_area c)
  added-IsStore = record {
    schema =
        push_id-IsSchema (length w.bytes) c.store.schema (omega (arith, c.slot))
          (omega (arith, c.store.schema.meta.sizes.attrs, c.slot)) (omega (arith, c.room));
    layout = refl;
    small = omega (
      arith,
      c.room,
      length_new c,
      length-push_id s (length w.bytes),
      ap length c.store.layout,
      length-append {0} (schema_bytes s) area,
      length-append {0} area (new_node_bytes (new_header c) values fresh),
      length-append {0} (schema_bytes (new_schema c)) (new_area c),
    );
  }

  -- Where a node can be added to a stored tree, `addNode` succeeds and leaves a stored tree: the schema has the offset of the old end of the file
  -- under the next id, and the area has the node's header, values and spare bytes behind what it had.
  pub add_node-IsStore :
      (w' : World) × (add_node fresh (map word values) parent w ≡ ok crud_success w')
      × IsStore w'.usable w'.bytes
          (push_id s (length w.bytes))
          (area ++ new_node_bytes (record { parent = parent; alloc = s.meta.cur_id }) values fresh)
  add_node-IsStore = (added c, add_node-added c, added-IsStore)

  -- The bytes of the area keep their places.
  area_kept :
      (k : ℕ)
      → k ≤ length area
      → drop (length (schema_bytes s) + k) (added c).bytes
        ≡ drop (length (schema_bytes s) + k) w.bytes ++ new_node_bytes (new_header c) values fresh
  area_kept k h =
      drop_in_area k (schema_bytes s) (schema_bytes (new_schema c)) (new_area c)
        (sym (length-push_id s (length w.bytes)))
      ∙ drop_more k area (new_node_bytes (new_header c) values fresh) h
      ∙ ap (λ t. t ++ new_node_bytes (new_header c) values fresh)
          (sym (
            ap (drop (length (schema_bytes s) + k)) c.store.layout
            ∙ drop_in_area k (schema_bytes s) (schema_bytes s) area refl))

  -- A node of the area is still where it was.
  pub NodeAt-add_node :
      (offset : ℕ) (h : NodeHeader) (us : List ℕ)
      → length (schema_bytes s) ≤ offset
      → offset ≤ length w.bytes
      → NodeAt w.bytes offset h us
      → NodeAt (added c).bytes offset h us
  NodeAt-add_node offset h us low high n =
      let k : ℕ = offset - length (schema_bytes s) in
      let e : offset ≡ length (schema_bytes s) + k = omega (arith, low) in
      let inside : k ≤ length area =
        omega (arith, high, ap length c.store.layout, length-append {0} (schema_bytes s) area) in
      let new : List ℕ = new_node_bytes (new_header c) values fresh in
      record {
        more = n.more ++ new;
        here =
            ap (λ i. drop i (added c).bytes) e
            ∙ area_kept k inside
            ∙ ap (λ i. drop i w.bytes ++ new) (sym e)
            ∙ ap (λ t. t ++ new) n.here
            ∙ append_assoc (node_head_bytes h) (words_to_le us ++ n.more) new
            ∙ ap (λ t. node_head_bytes h ++ t) (append_assoc (words_to_le us) n.more new);
        parent_word = n.parent_word;
        alloc_word = n.alloc_word;
        values_words = n.values_words;
      }

  -- The new node stands at the old end of the file.
  pub NodeAt-new : NodeAt (added c).bytes (length w.bytes) (new_header c) values
  NodeAt-new = record {
    more = drop (8 * length values) fresh;
    here =
        ap (λ i. drop i (added c).bytes)
          (ap length c.store.layout ∙ length-append (schema_bytes s) area)
        ∙ drop_in_area (length area) (schema_bytes s) (schema_bytes (new_schema c)) (new_area c)
            (sym (length-push_id s (length w.bytes)))
        ∙ drop-append area (new_node_bytes (new_header c) values fresh);
    parent_word = c.parent_word;
    alloc_word = omega (arith, c.store.schema.meta.sizes.ids);
    values_words = c.words;
  }

  pub new_slot : get_elem? (new_schema c).root s.meta.cur_id ≡ some (length w.bytes)
  unfolding push_id
  new_slot = get_elem?-set_self s.root s.meta.cur_id (length w.bytes) (
      omega (
        arith,
        c.slot,
        c.store.schema.ids,
        id_array_size-first c.store.schema.meta.sizes (omega (arith, c.slot)),
      ))

  old_slot :
      (id offset : ℕ)
      → s.meta.cur_id ≢ id
      → get_elem? s.root id ≡ some offset
      → get_elem? (new_schema c).root id ≡ some offset
  unfolding push_id
  old_slot id offset ne e = get_elem?-set_ne s.root s.meta.cur_id id (length w.bytes) ne ∙ e

  schema_not_empty : 0 < length (schema_bytes s)
  schema_not_empty = omega (arith, length-schema_bytes s)

  not_empty : 0 < length w.bytes
  not_empty =
      omega
        (arith, schema_not_empty, ap length c.store.layout, length-append {0} (schema_bytes s) area)

  -- Where a node can be added to a stored tree, `addNode` succeeds, and `getNode` of the id that was
  -- the next one then returns the values.
  pub get_node-add_node_self :
      (fuel : ℕ)
      → (w' : World) × (add_node fresh (map word values) parent w ≡ ok crud_success w')
        × Reads (get_node fuel s.meta.cur_id w') (some (map word values)) w'
  unfolding push_id
  get_node-add_node_self fuel = (
    added c,
    add_node-added c,
    get_node-IsStore (added c) added-IsStore c.no_strings fuel s.meta.cur_id (length w.bytes)
        (new_header c) values c.full new_slot (omega (arith, not_empty)) (omega (arith, c.room))
        NodeAt-new,
  )

  -- Where a node can be added to a stored tree, `addNode` changes no other node: what `getNode`
  -- returned of an id in use, whose node stands behind the schema, it still returns.
  pub get_node-add_node_ne :
      (fuel id offset : ℕ) (h : NodeHeader) (us : List ℕ)
      → id < s.meta.cur_id
      → get_elem? s.root id ≡ some offset
      → length (schema_bytes s) ≤ offset
      → offset ≤ length w.bytes
      → NodeAt w.bytes offset h us
      → length us ≡ length (types_of s)
      → (w' : World) × (add_node fresh (map word values) parent w ≡ ok crud_success w')
        × Reads (get_node fuel id w) (some (map word us)) w
        × Reads (get_node fuel id w') (some (map word us)) w'
  unfolding push_id
  get_node-add_node_ne fuel id offset h us lt slot low high n full = (
    added c,
    add_node-added c,
    get_node-IsStore w c.store c.no_strings fuel id offset h us full slot
        (omega (arith, schema_not_empty)) (omega (arith, c.room)) n,
    get_node-IsStore (added c) added-IsStore c.no_strings fuel id offset h us full
        (old_slot id offset (λ e. omega (arith, e)) slot) (omega (arith, schema_not_empty))
        (omega (arith, c.room)) (NodeAt-add_node offset h us low high n),
  )
