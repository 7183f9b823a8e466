-- ===== src/Store/Change.antt =====
-- What `updateNode` writes over a node of a stored tree.
use llp_base.Common.{
  ℕ, ◌+◌, ◌-◌, ◌*◌, ◌^◌, ◌<◌, ◌≤◌, ◌≡◌, ap, ◌∙◌, some, List, ◌++◌, length, take, drop, set,
  get_elem?, get_elem?-lt_length, length-set, append_assoc, length-append, length-drop, length-take,
  length-words_to_le, arith, words_to_le, to_le,
}
use llp_base.OsFile.{World, splice}
use llp_base.OsFile.Laws.{drop-splice, length-splice}
use llp_base.Schema.{NodeHeader}
use llp_base.Schema.Sizes.{real_node_size}
use llp_base.DataFile.{node_head_bytes}
use llp_base.DataFile.Reading.{wrote}
use llp_base.Store.Slots.{NodeAt, AreWords-set}
use llp_base.Store.Insert.{length-node_head_bytes}
use llp_base.Store.Get.{data_read, take_front, count_of_types}
use llp_base.Store.Overwrite.{splice-words}
use llp_base.Store.Tree.{TreeNode, IsPlaced, Holds, node_place}
use llp_base.Store.SetValue.{places_apart, data_read-ge}

module _ {w : World} {types : List ℕ} {nodes : List TreeNode} (h : Holds w types nodes) (id f v : ℕ)
    (n : TreeNode) (here : get_elem? nodes id ≡ some n) (inside : f < length types)
    (small : v < 2 ^ 64) where
  abbrev pub t : ℕ
  t = h.tree.meta.template_size

  abbrev pub i : IsPlaced w h.tree id n
  i = h.placed id n here

  abbrev pub header : NodeHeader
  header = record { parent = n.parent; alloc = id }

  -- The data of the node as it is read, and then changed, and what is written of it.
  abbrev contents : List ℕ
  contents = take (data_read t) (words_to_le n.values ++ i.node.more)

  abbrev pub new_contents : List ℕ
  new_contents = splice (8 * f) (to_le 8 v) contents

  abbrev pub written : List ℕ
  written = node_head_bytes header ++ take (real_node_size t) new_contents

  abbrev pub updated : World
  updated = wrote (record w { pos = i.offset }) written

  id_lt : id < length nodes
  id_lt = get_elem?-lt_length nodes id n here

  -- The node's place lies within the file.
  pub place_inside : i.offset + (16 + real_node_size t) ≤ length w.bytes
  place_inside =
      omega (arith, i.at, h.filled, places_apart id (length nodes) (node_place h.tree) id_lt)

  length-contents : real_node_size t ≤ length contents
  length-contents =
      let r = data_read-ge t h.store.schema.meta.sizes.attrs in
      omega (
        arith,
        r.0,
        place_inside,
        length-take {0} (data_read t) (words_to_le n.values ++ i.node.more),
        length-append {0} (node_head_bytes header) (words_to_le n.values ++ i.node.more),
        length-node_head_bytes header,
        ap length i.node.here,
        length-drop {0} i.offset w.bytes,
      )

  pub length-new_contents : real_node_size t ≤ length new_contents
  length-new_contents = omega (arith, length-contents, length-splice (8 * f) (to_le 8 v) contents)

  pub length-written : length written ≡ 16 + real_node_size t
  length-written = omega (
    arith,
    length-append {0} (node_head_bytes header) (take (real_node_size t) new_contents),
    length-take {0} (real_node_size t) new_contents,
    length-new_contents,
    length-node_head_bytes header,
  )

  pub length-updated : length updated.bytes ≡ length w.bytes
  length-updated =
      omega (arith, length-splice i.offset written w.bytes, length-written, place_inside)

  abbrev rest : List ℕ
  rest = take (data_read t - length (words_to_le n.values)) i.node.more

  abbrev pub new_values : List ℕ
  new_values = set n.values f v

  pub values_fit : 8 * length n.values ≤ real_node_size t
  values_fit =
      let r = data_read-ge t h.store.schema.meta.sizes.attrs in
      omega (arith, r.2, count_of_types n.values h.store i.full)

  new_contents-words : new_contents ≡ words_to_le new_values ++ rest
  new_contents-words =
      let r = data_read-ge t h.store.schema.meta.sizes.attrs in
      ap (splice (8 * f) (to_le 8 v)) (
        take_front (data_read t) (words_to_le n.values) i.node.more
          (omega (arith, values_fit, r.0, length-words_to_le n.values)))
      ∙ splice-words n.values rest f v (omega (arith, inside, i.full, ap length h.typed))

  abbrev spare : List ℕ
  spare = take (real_node_size t - length (words_to_le new_values)) rest

  written-words : written ≡ node_head_bytes header ++ (words_to_le new_values ++ spare)
  written-words =
      ap (λ c. node_head_bytes header ++ take (real_node_size t) c) new_contents-words
      ∙ ap (λ c. node_head_bytes header ++ c)
          (take_front (real_node_size t) (words_to_le new_values) rest
            (omega (arith, values_fit, length-words_to_le new_values, length-set {0} n.values f v)))

  -- The node has its new value.
  pub NodeAt-updated : NodeAt updated.bytes i.offset header new_values
  NodeAt-updated =
      let behind : List ℕ = drop (i.offset + length written) w.bytes in
      record {
        more = spare ++ behind;
        here =
            drop-splice i.offset written w.bytes
            ∙ ap (λ c. c ++ behind) written-words
            ∙ append_assoc (node_head_bytes header) (words_to_le new_values ++ spare) behind
            ∙ ap (λ c. node_head_bytes header ++ c)
                (append_assoc (words_to_le new_values) spare behind);
        parent_word = i.node.parent_word;
        alloc_word = i.node.alloc_word;
        values_words = AreWords-set n.values f v i.node.values_words small;
      }
