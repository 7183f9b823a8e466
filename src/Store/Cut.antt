-- ===== src/Store/Cut.antt =====
-- What `removeNode` does to the array of ids, and to the file behind the schema.
use llp_base.Common.{
  ℕ, suc, ◌+◌, ◌-◌, ◌^◌, ◌<◌, ◌≤◌, ◌≡◌, refl, sym, ap, ◌∙◌, some, false, List, [], ◌∷◌, ◌++◌,
  length, take, set, get_elem?, Bool-cases, inl, inr, ==-refl, get_elem?-lt_length, length-set,
  length-append, append-nil, take-append, arith, u64, ltb, ◌==◌, ne→==-false, lt→ltb, le→ltb-false,
}
use llp_base.OsFile.{World, ok, seek_set, ftruncate, resize}
use llp_base.Schema.{TreeSchema}
use llp_base.Schema.Sizes.{real_node_size, id_array_size}
use llp_base.DataFile.Bytes.{IsSchema, schema_bytes, length-schema_bytes}
use llp_base.BaseApi.{remove_from_id_array, drop_id, set_root, swap_last_node, swap_node}
use llp_base.Inner.{remove_strings}
use llp_base.Store.Slots.{IsStore, NoStrings, AreWords-set}
use llp_base.Store.Lookup.{
  behind_schema, read_tree_schema_0, get_types-IsStore, write_tree_schema-IsStore,
}

-- The schema after the node of an id is taken out of the array.
unfoldable pub without_id : TreeSchema → ℕ → TreeSchema
unfolding drop_id
without_id s id = record (drop_id s id) { root = set (drop_id s id).root id 0 }

pub no_strings :
    (fuel offset size : ℕ) (types : List ℕ) (i : ℕ) (w : World)
    → NoStrings types
    → remove_strings fuel offset size types i w ≡ ok tt w
unfolding remove_strings
no_strings fuel offset size [] i w ns = refl
no_strings fuel offset size (type ∷ types) i w ns =
    rw ns.0 (no_strings fuel offset size types (i + 1) w ns.1)

set_root-without_id :
    (s : TreeSchema) (id : ℕ) (w : World)
    → id < length s.root
    → set_root (drop_id s id) id 0 w ≡ ok (without_id s id) w
unfolding set_root without_id drop_id
set_root-without_id s id w h = elim (Bool-cases (u64 (s.meta.cur_id + 2 ^ 64 - 1) == id)) [
  | inl e ↦ rw (e, lt→ltb id (length s.root) h) refl
  | inr e ↦ rw (e, lt→ltb id (length s.root) h) refl
]

-- A seek to so many bytes before the start of the file is refused.
seek_refused : (t : ℕ) → t ≤ 2 ^ 20 → ltb (u64 (2 ^ 64 - (real_node_size t + 16))) (2 ^ 63) ≡ false
unfolding real_node_size
seek_refused t h = le→ltb-false _ _ (ground arith)

module _ {s : TreeSchema} {area : List ℕ} (w : World) (i : IsStore w.usable w.bytes s area) where
  -- The id is taken out of the array, and the area of the nodes is as it was.
  pub remove_from_id_array-IsStore :
      (id offset : ℕ) (s' : TreeSchema)
      → get_elem? s.root id ≡ some offset
      → 0 < offset
      → without_id s id ≡ s'
      → IsSchema w.usable s'
      → length (schema_bytes s') ≡ length (schema_bytes s)
      → remove_from_id_array id w
        ≡ ok
            (some offset)
            (record w { bytes = schema_bytes s' ++ area; pos = length (schema_bytes s) })
  unfolding remove_from_id_array seek_set
  remove_from_id_array-IsStore id offset s' slot pos out is same = rw (
    read_tree_schema_0 w i,
    slot,
    ne→==-false offset 0 (λ e. omega (arith, e)),
    set_root-without_id s id (behind_schema w s) (get_elem?-lt_length s.root id offset slot),
    out,
    write_tree_schema-IsStore w i s' (length (schema_bytes s)) is same,
  )

  -- On a stored tree `swapLastNode`, called for the place behind the schema, cuts the file there,
  -- whatever nodes it held, since its seek from the end is refused.
  pub swap_last_node-schema :
      (node_size : ℕ)
      → swap_last_node (length (schema_bytes s)) node_size w
        ≡ ok tt (record w { bytes = schema_bytes s; pos = length (schema_bytes s) })
  unfolding swap_last_node swap_node seek_set ftruncate resize
  swap_last_node-schema node_size =
      let front : take (length (schema_bytes s)) w.bytes ≡ schema_bytes s =
        ap (take (length (schema_bytes s))) i.layout ∙ take-append (schema_bytes s) area in
      let no_more : length (schema_bytes s) - length w.bytes ≡ 0 =
        omega (arith, ap length i.layout, length-append {0} (schema_bytes s) area) in
      rw (
        get_types-IsStore w i,
        seek_refused s.meta.template_size i.schema.meta.sizes.attrs,
        get_types-IsStore (behind_schema w s) i,
        ==-refl (length (schema_bytes s)),
        front,
        no_more,
        append-nil (schema_bytes s),
      )

-- The schema with an id taken out and another number of ids.
abbrev pub taken_out : TreeSchema → ℕ → ℕ → TreeSchema
taken_out s id c = record s { meta = record s.meta { cur_id = c }; root = set s.root id 0 }

pub without_last :
    (s : TreeSchema) (id : ℕ)
    → s.meta.cur_id ≡ suc id
    → id < 2 ^ 40
    → without_id s id ≡ taken_out s id id
unfolding without_id drop_id
without_last s id e h =
    let last : u64 (s.meta.cur_id + 2 ^ 64 - 1) ≡ id = omega (arith, e) in
    rw (last, ==-refl id) refl

pub without_other :
    (s : TreeSchema) (id : ℕ)
    → suc id < s.meta.cur_id
    → s.meta.cur_id ≤ 2 ^ 40
    → without_id s id ≡ taken_out s id s.meta.cur_id
unfolding without_id drop_id
without_other s id lt h =
    let other = ne→==-false (u64 (s.meta.cur_id + 2 ^ 64 - 1)) id (λ e. omega (arith, e)) in
    rw other refl

pub taken_out-IsSchema :
    (usable : ℕ → ℕ) (s : TreeSchema) (id c : ℕ)
    → IsSchema usable s
    → c ≤ s.meta.cur_id
    → id_array_size s.meta.template_size c ≡ id_array_size s.meta.template_size s.meta.cur_id
    → IsSchema usable (taken_out s id c)
taken_out-IsSchema usable s id c i le same = record {
  meta = record {
    sign_word = i.meta.sign_word;
    root_word = i.meta.root_word;
    first_word = i.meta.first_word;
    second_word = i.meta.second_word;
    sizes = record { attrs = i.meta.sizes.attrs; ids = omega (arith, le, i.meta.sizes.ids) };
  };
  attrs = i.attrs;
  count = i.count;
  ids = length-set s.root id 0 ∙ i.ids ∙ sym same;
  words = AreWords-set s.root id 0 i.words (omega arith);
}

pub length-taken_out :
    (s : TreeSchema) (id c : ℕ) → length (schema_bytes (taken_out s id c)) ≡ length (schema_bytes s)
length-taken_out s id c = omega (
  arith,
  length-schema_bytes s,
  length-schema_bytes (taken_out s id c),
  length-set {0} s.root id 0,
)
