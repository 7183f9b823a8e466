-- ===== src/Store/Add.antt =====
-- `addNode` on a stored tree without string attributes, and `getNode` after it.
use llp_base.Common.{
  ℕ, suc, ◌+◌, ◌*◌, ◌^◌, ◌<◌, ◌≤◌, ◌≡◌, refl, sym, ap, ap₂, ◌∙◌, some, List, [], ◌∷◌, ◌++◌, map,
  length, drop, get_elem?, append_assoc, append-nil, length-append, length-drop, arith, words_to_le,
  AreWords, length-words_to_le, to_le, length-to_le, drop-drop,
}
use llp_base.OsFile.{World, ok, splice}
use llp_base.OsFile.Laws.{splice_behind}
use llp_base.Schema.{NodeHeader, KeyNode, TreeSchema}
use llp_base.Schema.Sizes.{real_node_size, slots}
use llp_base.DataFile.{node_head_bytes}
use llp_base.DataFile.Bytes.{schema_bytes}
use llp_base.BaseApi.{crud_success, link_ston, link_strings}
use llp_base.Inner.{word, add_node, store_values, store_value}
use llp_base.Store.Slots.{IsStore, NoStrings, types_of, push_id}
use llp_base.Store.Insert.{length-node_head_bytes, insert_node-end}
use llp_base.Store.Append.{append_to_id_array-IsStore}
use llp_base.Store.Lookup.{behind_schema, get_types-IsStore, read_tree_schema-IsStore}
use llp_base.Store.Get.{count_of_types}

link_none :
    (node : KeyNode) (offset size : ℕ) (types : List ℕ) (i : ℕ) (w : World)
    → NoStrings types
    → link_strings node offset size types i w ≡ ok tt w
unfolding link_strings
link_none node offset size [] i w ns = refl
link_none node offset size (type ∷ types) i w ns =
    rw ns.0 (link_none node offset size types (i + 1) w ns.1)

get_value :
    (us vs : List ℕ) (v : ℕ) → get_elem? (map word (us ++ v ∷ vs)) (length us) ≡ some (word v)
get_value [] vs v = refl
get_value (u ∷ us) vs v = get_value us vs v

words_snoc : (us : List ℕ) (v : ℕ) → words_to_le (us ++ v ∷ []) ≡ words_to_le us ++ to_le 8 v
unfolding words_to_le
words_snoc [] v = append-nil (to_le 8 v)
words_snoc (u ∷ us) v =
    ap (λ t. to_le 8 u ++ t) (words_snoc us v)
    ∙ sym (append_assoc (to_le 8 u) (words_to_le us) (to_le 8 v))

-- The values fill the front of the block that `malloc` returned.
store_words :
    (size : ℕ) (types us vs fresh : List ℕ) (w : World)
    → NoStrings types
    → length vs ≡ length types
    → store_values size types (map word (us ++ vs)) (length us) (words_to_le us ++ fresh) w
      ≡ ok (words_to_le (us ++ vs) ++ drop (8 * length vs) fresh) w
unfolding store_values store_value
store_words size [] us [] fresh w ns e =
    ap (λ t. ok (words_to_le t ++ fresh) w) (sym (append-nil us))
store_words size [] us (v ∷ vs) fresh w ns e = absurd (omega arith)
store_words size (type ∷ types) us [] fresh w ns e = absurd (omega arith)
store_words size (type ∷ types) us (v ∷ vs) fresh w ns e =
    let step : splice (8 * length us) (to_le 8 v) (words_to_le us ++ fresh)
        ≡ words_to_le (us ++ v ∷ []) ++ drop 8 fresh =
      ap (λ n. splice n (to_le 8 v) (words_to_le us ++ fresh)) (sym (length-words_to_le us))
      ∙ splice_behind (words_to_le us) (to_le 8 v) fresh
      ∙ ap₂ (λ a n. a ++ drop n fresh) (sym (words_snoc us v)) (length-to_le 8 v) in
    let rest : drop (8 * length vs) (drop 8 fresh) ≡ drop (8 * suc (length vs)) fresh =
      sym (drop-drop 8 (8 * length vs) fresh)
      ∙ ap (λ n. drop n fresh) {x = 8 + 8 * length vs} (omega arith) in
    let one : length us + 1 ≡ length (us ++ v ∷ []) = sym (length-append us (v ∷ [])) in
    rw (get_value us vs v, ns.0, step, ← append_assoc us (v ∷ []) vs, one, ← rest)
      (store_words size types (us ++ v ∷ []) vs (drop 8 fresh) w ns.1 (omega arith))

-- The bytes of a node: its header, its values, and what is left of the block they were put into.
abbrev pub new_node_bytes : NodeHeader → List ℕ → List ℕ → List ℕ
new_node_bytes h values fresh =
    node_head_bytes h ++ (words_to_le values ++ drop (8 * length values) fresh)

real_node_size-le :
    (t : ℕ)
    → t ≤ 2 ^ 20
    → (8 * t ≤ real_node_size t) × (real_node_size t < 2 ^ 62) × (0 < real_node_size t)
unfolding real_node_size
real_node_size-le t h = ground arith

-- A new node of a stored tree: as many values as attributes, none a string, a free slot for its id,
-- and room in the file.
pub record CanAdd (w : World) (s : TreeSchema) (area values fresh : List ℕ) (parent : ℕ)
    : Type 0 where
  pub store : IsStore w.usable w.bytes s area
  pub no_strings : NoStrings (types_of s)
  pub full : length values ≡ length (types_of s)
  pub block : length fresh ≡ real_node_size s.meta.template_size
  pub slot : s.meta.cur_id + 1 < slots s.meta.template_size
  pub room : length w.bytes + 16 + real_node_size s.meta.template_size < 2 ^ 62
  pub parent_word : parent < 2 ^ 64
  pub words : AreWords values

module _ {w : World} {s : TreeSchema} {area values fresh : List ℕ} {parent : ℕ}
    (c : CanAdd w s area values fresh parent) where
  abbrev pub new_header : NodeHeader
  new_header = record { parent = parent; alloc = s.meta.cur_id }

  abbrev pub new_area : List ℕ
  new_area = area ++ new_node_bytes new_header values fresh

  abbrev pub new_schema : TreeSchema
  new_schema = push_id s (length w.bytes)

  abbrev pub added : World
  added = record w { bytes = schema_bytes new_schema ++ new_area; pos = length (schema_bytes s) }

  length_contents :
      length (words_to_le values ++ drop (8 * length values) fresh)
      ≡ real_node_size s.meta.template_size
  length_contents =
      let r = real_node_size-le s.meta.template_size c.store.schema.meta.sizes.attrs in
      omega (
        arith,
        length-append {0} (words_to_le values) (drop (8 * length values) fresh),
        length-drop {0} (8 * length values) fresh,
        length-words_to_le values,
        c.block,
        count_of_types values c.store c.full,
        r.0,
      )

  stored :
      store_values s.meta.template_size (types_of s) (map word values) 0 fresh (behind_schema w s)
      ≡ ok (words_to_le values ++ drop (8 * length values) fresh) (behind_schema w s)
  stored =
      unfold words_to_le in
      store_words s.meta.template_size (types_of s) [] values fresh (behind_schema w s) c.no_strings
        c.full

  pub length_new :
      length (new_node_bytes new_header values fresh) ≡ 16 + real_node_size s.meta.template_size
  length_new = omega (
    arith,
    length_contents,
    length-node_head_bytes new_header,
    length-append {0} (node_head_bytes new_header)
        (words_to_le values ++ drop (8 * length values) fresh),
  )

  -- The store while the node is at the end of the file and not yet among the ids.
  pub inserted : IsStore w.usable (w.bytes ++ new_node_bytes new_header values fresh) s new_area
  inserted = record {
    schema = c.store.schema;
    layout =
        ap (λ t. t ++ new_node_bytes new_header values fresh) c.store.layout
        ∙ append_assoc (schema_bytes s) area (new_node_bytes new_header values fresh);
    small = omega (
      arith,
      length_new,
      c.room,
      length-append {0} w.bytes (new_node_bytes new_header values fresh),
    );
  }

  -- `addNode` succeeds: the node stands at the old end of the file, and its offset under the next id.
  pub add_node-added : add_node fresh (map word values) parent w ≡ ok crud_success added
  unfolding add_node link_ston
  add_node-added =
      let r = real_node_size-le s.meta.template_size c.store.schema.meta.sizes.attrs in
      let w1 : World = behind_schema w s in
      let w2 : World = record w {
        bytes = w.bytes ++ new_node_bytes new_header values fresh;
        pos = length w.bytes + (16 + real_node_size s.meta.template_size);
      } in
      let node : KeyNode = record {
        header = new_header;
        contents = words_to_le values ++ drop (8 * length values) fresh;
      } in
      rw (
        get_types-IsStore w c.store,
        read_tree_schema-IsStore w1 c.store,
        stored,
        insert_node-end w1 node (real_node_size s.meta.template_size) length_contents r.2 r.1,
        get_types-IsStore w2 inserted,
        link_none node (length w.bytes) s.meta.template_size (types_of s) 0 (behind_schema w2 s)
            c.no_strings,
        append_to_id_array-IsStore (behind_schema w2 s) inserted c.slot (length w.bytes)
            (omega (arith, c.room)) (omega (arith, c.store.schema.meta.sizes.attrs, c.slot)),
      )
