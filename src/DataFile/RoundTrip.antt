-- ===== src/DataFile/RoundTrip.antt =====
-- What `writeTreeSchema` writes, `readTreeSchema` reads back.
use llp_base.Common.{
  ℕ, ◌+◌, ◌*◌, ◌≤◌, ◌≡◌, refl, sym, ap, ◌∙◌, List, [], ◌∷◌, ◌++◌, length, drop, arith, u64,
  words_to_le,
}
use llp_base.OsFile.{World, ok, read_success, write_success, write_file, splice, seek_set, ◌>>=◌}
use llp_base.OsFile.Laws.{write_file-ok, splice-nil}
use llp_base.Schema.{AttributeInfo, TreeSchema}
use llp_base.Schema.Sizes.{id_array_size}
use llp_base.DataFile.Read.{read_tree_schema}
use llp_base.DataFile.Write.{
  meta_bytes, attr_head_bytes, write_tree_schema, write_attributes, write_attributes_template,
  write_root, write_tree_meta,
}
use llp_base.DataFile.Bytes.{
  attr_bytes, attrs_bytes, schema_bytes, AreAttributes, IsSchema, length-meta_bytes,
  length-attr_head_bytes,
}
use llp_base.DataFile.Reading.{
  wrote, wrote-wrote, wrote_inside, root_not_empty, root_room, read_tree_schema-bytes,
}

write_head :
    (w : World) (a : AttributeInfo)
    → write_file (attr_head_bytes a) 8 w ≡ ok write_success (wrote w (attr_head_bytes a))
write_head w a =
    rw (← length-attr_head_bytes a)
      (write_file-ok w (attr_head_bytes a) (omega (arith, length-attr_head_bytes a)))

write_attributes-bytes :
    (w : World) (attrs : List AttributeInfo) (usable : ℕ → ℕ)
    → AreAttributes usable attrs
    → w.pos ≤ length w.bytes
    → write_attributes (length attrs) attrs write_success w
      ≡ ok write_success (wrote w (attrs_bytes attrs))
unfolding write_attributes attrs_bytes attr_bytes
write_attributes-bytes w [] usable i h =
    ap (ok write_success)
      (sym (rw (splice-nil w.pos w.bytes h) (ap (λ n. record w { pos = n }) (omega arith))))
write_attributes-bytes w (a ∷ attrs) usable i h =
    let name : write_file a.attribute_name a.size (wrote w (attr_head_bytes a))
        ≡ ok write_success (wrote (wrote w (attr_head_bytes a)) a.attribute_name) =
      ap (λ n. write_file a.attribute_name n (wrote w (attr_head_bytes a))) i.0.named
      ∙ write_file-ok (wrote w (attr_head_bytes a)) a.attribute_name
          (omega (arith, i.0.named, i.0.not_empty)) in
    rw
      (
        write_head w a,
        name,
        wrote-wrote w (attr_head_bytes a) a.attribute_name,
        write_attributes-bytes (wrote w (attr_head_bytes a ++ a.attribute_name)) attrs usable i.1
            (wrote_inside w (attr_head_bytes a ++ a.attribute_name)),
      )
      (ap (ok write_success)
        (wrote-wrote w (attr_head_bytes a ++ a.attribute_name) (attrs_bytes attrs)))

-- A schema is written at the front of the file, over what stood there.
pub write_tree_schema-bytes :
    (w : World) (s : TreeSchema) (usable : ℕ → ℕ)
    → IsSchema usable s
    → write_tree_schema s w
      ≡ ok write_success
          (record w { bytes = splice 0 (schema_bytes s) w.bytes; pos = length (schema_bytes s) })
unfolding write_tree_schema seek_set schema_bytes write_tree_meta write_attributes_template
    write_root
write_tree_schema-bytes w s usable i =
    let w0 : World = record w { pos = 0 } in
    let w1 : World = wrote w0 (meta_bytes s.meta) in
    let meta : write_file (meta_bytes s.meta) 48 w0 ≡ ok write_success w1 =
      rw (← length-meta_bytes s.meta)
        (write_file-ok w0 (meta_bytes s.meta) (omega (arith, length-meta_bytes s.meta))) in
    let behind : record w1 { pos = 48 } ≡ w1 =
      ap (λ n. record w1 { pos = n }) (omega (arith, length-meta_bytes s.meta)) in
    let attrs : write_attributes s.meta.template_size s.nodes_template write_success w1
        ≡ ok write_success (wrote w1 (attrs_bytes s.nodes_template)) =
      ap (λ n. write_attributes n s.nodes_template write_success w1) i.count
      ∙ write_attributes-bytes w1 s.nodes_template usable i.attrs
          (wrote_inside w0 (meta_bytes s.meta)) in
    let w2 : World = wrote w1 (attrs_bytes s.nodes_template) in
    let root : write_file (words_to_le s.root)
          (u64 (id_array_size s.meta.template_size s.meta.cur_id * 8)) w2
        ≡ ok write_success (wrote w2 (words_to_le s.root)) =
      ap (λ n. write_file (words_to_le s.root) n w2) (root_room i)
      ∙ write_file-ok w2 (words_to_le s.root) (root_not_empty i) in
    let all : wrote w2 (words_to_le s.root) ≡ wrote w0 (schema_bytes s) =
      wrote-wrote w1 (attrs_bytes s.nodes_template) (words_to_le s.root)
      ∙ wrote-wrote w0 (meta_bytes s.meta) (attrs_bytes s.nodes_template ++ words_to_le s.root) in
    rw (meta, behind, attrs, root)
      (ap (ok write_success) (
        all
        ∙ ap (λ n. record w { bytes = splice 0 (schema_bytes s) w.bytes; pos = n })
            {x = 0 + length (schema_bytes s)} (omega arith)))

pub read_tree_schema-write_tree_schema :
    (w : World) (s : TreeSchema)
    → IsSchema w.usable s
    → (write_tree_schema s >>= λ _. read_tree_schema) w
      ≡ ok
          (read_success, s)
          (record w {
            bytes = schema_bytes s ++ drop (length (schema_bytes s)) w.bytes;
            pos = length (schema_bytes s);
          })
read_tree_schema-write_tree_schema w s i = rw (write_tree_schema-bytes w s w.usable i) (
    unfold splice in
    read_tree_schema-bytes
      (record w {
        bytes = schema_bytes s ++ drop (length (schema_bytes s)) w.bytes;
        pos = length (schema_bytes s);
      })
      s (drop (length (schema_bytes s)) w.bytes) i refl)
