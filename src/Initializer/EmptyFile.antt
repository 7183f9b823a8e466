-- ===== src/Initializer/EmptyFile.antt =====
-- The file that `initEmptyFile` makes.
use llp_base.Common.{
  ℕ, ◌^◌, ◌<◌, ◌≤◌, ◌≡◌, sym, ap, ◌∙◌, List, [], ◌++◌, length, drop, replicate, arith, append-nil,
  drop-nil, length-replicate,
}
use llp_base.OsFile.{World, ok, write_success, splice, seek_set}
use llp_base.Schema.{TreeSchema}
use llp_base.Schema.Sizes.{Fits, id_array_size, id_array_size_bounds}
use llp_base.DataFile.Bytes.{schema_bytes, IsSchema, length-schema_bytes}
use llp_base.DataFile.RoundTrip.{write_tree_schema-bytes}
use llp_base.Store.Slots.{IsStore}
use llp_base.Initializer.{create_empty_tree_meta, create_empty_tree_schema, init_empty_file}
use llp_base.Initializer.Template.{
  AreWords-zeros, AreFields, new_tree, create_template-ok, new_attributes-AreAttributes,
  length-new_attributes, length-attrs_bytes,
}

module _ (w : World) (fresh : ℕ → List ℕ) (template : List (List ℕ)) (types sizes : List ℕ)
    (f : AreFields w.usable fresh template types sizes) (few : length template ≤ 2 ^ 20) where
  pub new_tree-IsSchema : IsSchema w.usable (new_tree fresh template types sizes)
  unfolding create_empty_tree_meta
  new_tree-IsSchema = record {
    meta = record {
      sign_word = omega arith;
      root_word = omega arith;
      first_word = omega arith;
      second_word = omega arith;
      sizes = record { attrs = few; ids = omega arith };
    };
    attrs = new_attributes-AreAttributes w.usable fresh template types sizes f;
    count = sym (length-new_attributes w.usable fresh template types sizes f);
    ids = length-replicate (id_array_size (length template) 0) 0;
    words = AreWords-zeros (id_array_size (length template) 0);
  }

  schema_small : length (schema_bytes (new_tree fresh template types sizes)) < 2 ^ 54
  schema_small =
      let fits : Fits (length template) 0 = record { attrs = few; ids = omega arith } in
      let b = id_array_size_bounds fits in
      let no_ids : List ℕ = replicate (id_array_size (length template) 0) 0 in
      let zeros : length no_ids ≡ id_array_size (length template) 0 =
        length-replicate (id_array_size (length template) 0) 0 in
      omega (
        arith,
        length-schema_bytes (new_tree fresh template types sizes),
        length-attrs_bytes w.usable fresh template types sizes f,
        zeros,
        b.1,
        few,
      )

  -- `initEmptyFile` on an empty file, of at most 2^20 attributes that a file can hold, succeeds and leaves a stored tree without nodes: the schema
  -- alone, its template the given names, padded to whole granules, and the given types. It
  -- is shorter than 2^54 bytes.
  pub init_empty_file-IsStore :
      w.bytes ≡ []
      → (w' : World) × (init_empty_file fresh template types (length template) sizes w
          ≡ ok write_success w')
        × IsStore w'.usable w'.bytes (new_tree fresh template types sizes) []
        × (length w'.bytes < 2 ^ 54)
  unfolding init_empty_file create_empty_tree_schema seek_set create_empty_tree_meta splice
  init_empty_file-IsStore empty =
      let s : TreeSchema = new_tree fresh template types sizes in
      let w0 : World = record w { pos = 0 } in
      let rest : drop (length (schema_bytes s)) w.bytes ≡ [] =
        ap (drop (length (schema_bytes s))) empty ∙ drop-nil (length (schema_bytes s)) in
      let none_left : length (schema_bytes s ++ drop (length (schema_bytes s)) w.bytes)
          ≡ length (schema_bytes s) =
        ap (λ t. length (schema_bytes s ++ t)) rest ∙ ap length (append-nil (schema_bytes s)) in
      (
        record w {
          bytes = schema_bytes s ++ drop (length (schema_bytes s)) w.bytes;
          pos = length (schema_bytes s);
        },
        rw (create_template-ok w.usable fresh template types sizes w0 f)
            (write_tree_schema-bytes w0 s w.usable new_tree-IsSchema),
        record {
          schema = new_tree-IsSchema;
          layout = ap (λ t. schema_bytes s ++ t) rest;
          small = omega (arith, none_left, schema_small);
        },
        omega (arith, none_left, schema_small),
      )
