-- ===== src/DataFile/Reading.antt =====
-- The stream at the bytes of a schema, and what `readTreeSchema` reads there.
use llp_base.Common.{
  ℕ, ◌+◌, ◌*◌, ◌^◌, ◌<◌, ◌≤◌, ◌≡◌, ap, ◌∙◌, List, [], ◌∷◌, ◌++◌, length, drop, append_assoc,
  drop-rest, arith, u64, to_le, words_to_le, AreWords, from_le-to_le_4, words_from_le-words_to_le,
  length-words_to_le, length-append, false, ltb, le→ltb-false,
}
use llp_base.OsFile.{World, ok, read_success, read_file, splice, seek_set}
use llp_base.OsFile.Laws.{read_file-ok, splice-splice, length-splice}
use llp_base.Schema.{TreeMeta, AttributeInfo, TreeSchema}
use llp_base.Schema.Sizes.{id_array_size, id_array_size_bounds}
use llp_base.DataFile.Read.{
  attribute_name_room, read_attribute, read_attributes, meta_of_words, read_tree_meta,
  read_tree_schema,
}
use llp_base.DataFile.Write.{meta_bytes, attr_head_bytes}
use llp_base.DataFile.Bytes.{
  attr_bytes, attrs_bytes, schema_bytes, IsAttribute, AreAttributes, IsMeta, IsSchema,
  length-meta_bytes, length-schema_bytes,
}

-- The stream moved on by `n` bytes.
abbrev pub moved : World → ℕ → World
moved w n = record w { pos = w.pos + n }

-- `drop-rest` for the stream.
pub left :
    (w : World) (xs ys : List ℕ)
    → drop w.pos w.bytes ≡ xs ++ ys
    → drop (moved w (length xs)).pos (moved w (length xs)).bytes ≡ ys
left w xs ys h = drop-rest w.pos w.bytes xs ys h

-- The world after a write at the stream's position.
abbrev pub wrote : World → List ℕ → World
wrote w xs = record w { bytes = splice w.pos xs w.bytes; pos = w.pos + length xs }

pub wrote-wrote : (w : World) (xs ys : List ℕ) → wrote (wrote w xs) ys ≡ wrote w (xs ++ ys)
wrote-wrote w xs ys = rw (splice-splice w.pos xs ys w.bytes) (
    ap (λ n. record w { bytes = splice w.pos (xs ++ ys) w.bytes; pos = n })
      (omega (arith, length-append {0} xs ys)))

pub wrote_inside : (w : World) (xs : List ℕ) → (wrote w xs).pos ≤ length (wrote w xs).bytes
wrote_inside w xs = omega (arith, length-splice w.pos xs w.bytes)

module _ {usable : ℕ → ℕ} {s : TreeSchema} (i : IsSchema usable s) where
  root_small : id_array_size s.meta.template_size s.meta.cur_id < 2 ^ 60
  root_small =
      let b = id_array_size_bounds i.meta.sizes in
      omega (arith, b.1, i.meta.sizes.attrs, i.meta.sizes.ids)

  pub root_not_empty : 0 < length (words_to_le s.root)
  root_not_empty =
      let b = id_array_size_bounds i.meta.sizes in
      omega (arith, b.0, i.ids, length-words_to_le s.root)

  pub root_room :
      u64 (id_array_size s.meta.template_size s.meta.cur_id * 8) ≡ length (words_to_le s.root)
  root_room = omega (arith, root_small, i.ids, length-words_to_le s.root)

pub read_head :
    (w : World) (a : AttributeInfo) (rest : List ℕ)
    → drop w.pos w.bytes ≡ attr_head_bytes a ++ rest
    → read_file 8 w ≡ ok (read_success, attr_head_bytes a) (moved w 8)
unfolding attr_head_bytes to_le
read_head w a rest h = read_file-ok w (attr_head_bytes a) rest h (omega arith)

pub read_attribute-bytes :
    (w : World) (a : AttributeInfo) (rest : List ℕ)
    → IsAttribute w.usable a
    → drop w.pos w.bytes ≡ attr_bytes a ++ rest
    → read_attribute w ≡ ok (read_success, a) (moved w (length (attr_bytes a)))
unfolding read_attribute attr_bytes attr_head_bytes to_le
read_attribute-bytes w a rest i h =
    let here : drop w.pos w.bytes ≡ attr_head_bytes a ++ (a.attribute_name ++ rest) =
      h ∙ append_assoc (attr_head_bytes a) a.attribute_name rest in
    let name : read_file a.size (moved w 8)
        ≡ ok (read_success, a.attribute_name) (moved (moved w 8) (length a.attribute_name)) =
      ap (λ n. read_file n (moved w 8)) i.named
      ∙ read_file-ok (moved w 8) a.attribute_name rest
          (left w (attr_head_bytes a) (a.attribute_name ++ rest) here)
          (omega (arith, i.named, i.not_empty)) in
    let room : ltb (w.usable (attribute_name_room a.size)) (length a.attribute_name) ≡ false =
      le→ltb-false _ _ (omega (arith, i.named, i.room)) in
    rw
      (
        read_head w a (a.attribute_name ++ rest) here,
        from_le-to_le_4 a.size i.size_word,
        from_le-to_le_4 a.type i.type_word,
        name,
        room,
      )
      (ap (λ n. ok (read_success, a) (record w { pos = n })) (omega arith))

read_attributes-bytes :
    (w : World) (attrs : List AttributeInfo) (rest : List ℕ)
    → AreAttributes w.usable attrs
    → drop w.pos w.bytes ≡ attrs_bytes attrs ++ rest
    → read_attributes (length attrs) read_success w
      ≡ ok (read_success, attrs) (moved w (length (attrs_bytes attrs)))
unfolding read_attributes attrs_bytes
read_attributes-bytes w [] rest i h =
    ap (λ n. ok (read_success, []) (record w { pos = n })) (omega arith)
read_attributes-bytes w (a ∷ attrs) rest i h =
    let here : drop w.pos w.bytes ≡ attr_bytes a ++ (attrs_bytes attrs ++ rest) =
      h ∙ append_assoc (attr_bytes a) (attrs_bytes attrs) rest in
    rw
      (
        read_attribute-bytes w a (attrs_bytes attrs ++ rest) i.0 here,
        read_attributes-bytes (moved w (length (attr_bytes a))) attrs rest i.1
            (left w (attr_bytes a) (attrs_bytes attrs ++ rest) here),
      )
      (ap (λ n. ok (read_success, a ∷ attrs) (record w { pos = n }))
        (omega (arith, length-append {0} (attr_bytes a) (attrs_bytes attrs))))

read_tree_meta-bytes :
    (w : World) (m : TreeMeta) (rest : List ℕ)
    → IsMeta m
    → drop w.pos w.bytes ≡ meta_bytes m ++ rest
    → read_tree_meta w ≡ ok (read_success, m) (moved w 48)
unfolding read_tree_meta meta_of_words meta_bytes
read_tree_meta-bytes w m rest i h =
    let ws : List ℕ =
      m.ascii_sign ∷ m.root_offset ∷ m.first_seq ∷ m.second_seq ∷ m.cur_id ∷ m.template_size ∷ [] in
    let all : AreWords ws = (
      i.sign_word,
      (
        i.root_word,
        (
          i.first_word,
          (i.second_word, (omega (arith, i.sizes.ids), (omega (arith, i.sizes.attrs), tt))),
        ),
      ),
    ) in
    let buffer : read_file 48 w ≡ ok (read_success, words_to_le ws) (moved w 48) =
      rw (← length-words_to_le ws)
        (read_file-ok w (words_to_le ws) rest h (omega (arith, length-words_to_le ws))) in
    rw (buffer, words_from_le-words_to_le ws all)

-- The bytes of a schema at the front of the file are read back as that schema, and the stream stands
-- behind them.
pub read_tree_schema-bytes :
    (w : World) (s : TreeSchema) (rest : List ℕ)
    → IsSchema w.usable s
    → w.bytes ≡ schema_bytes s ++ rest
    → read_tree_schema w ≡ ok (read_success, s) (record w { pos = length (schema_bytes s) })
unfolding read_tree_schema seek_set schema_bytes meta_bytes words_to_le to_le
read_tree_schema-bytes w s rest i h =
    let w0 : World = record w { pos = 0 } in
    let here : w.bytes
        ≡ meta_bytes s.meta ++ (attrs_bytes s.nodes_template ++ (words_to_le s.root ++ rest)) =
      h
      ∙ append_assoc (meta_bytes s.meta) (attrs_bytes s.nodes_template ++ words_to_le s.root) rest
      ∙ ap (λ t. meta_bytes s.meta ++ t)
          (append_assoc (attrs_bytes s.nodes_template) (words_to_le s.root) rest) in
    let meta =
      read_tree_meta-bytes w0 s.meta (attrs_bytes s.nodes_template ++ (words_to_le s.root ++ rest))
        i.meta here in
    let w1 : World = moved w0 48 in
    let behind : drop w1.pos w1.bytes
        ≡ attrs_bytes s.nodes_template ++ (words_to_le s.root ++ rest) =
      rw (← length-meta_bytes s.meta) (
        left w0 (meta_bytes s.meta) (attrs_bytes s.nodes_template ++ (words_to_le s.root ++ rest))
          here) in
    let attrs : read_attributes s.meta.template_size read_success w1
        ≡ ok (read_success, s.nodes_template) (moved w1 (length (attrs_bytes s.nodes_template))) =
      ap (λ n. read_attributes n read_success w1) i.count
      ∙ read_attributes-bytes w1 s.nodes_template (words_to_le s.root ++ rest) i.attrs behind in
    let w2 : World = moved w1 (length (attrs_bytes s.nodes_template)) in
    let root : read_file (u64 (id_array_size s.meta.template_size s.meta.cur_id * 8)) w2
        ≡ ok (read_success, words_to_le s.root) (moved w2 (length (words_to_le s.root))) =
      ap (λ n. read_file n w2) (root_room i)
      ∙ read_file-ok w2 (words_to_le s.root) rest
          (left w1 (attrs_bytes s.nodes_template) (words_to_le s.root ++ rest) behind)
          (root_not_empty i) in
    rw (meta, attrs, root, words_from_le-words_to_le s.root i.words)
      (ap (λ n. ok (read_success, s) (record w { pos = n }))
        (omega (arith, length-schema_bytes s, length-words_to_le s.root)))
