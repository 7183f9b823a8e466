-- ===== src/Store/Lookup.antt =====
-- What the readers of the array of ids return on a stored tree.
use llp_base.Common.{
  drop, drop-append, ap₂, ◌∙◌, ap, ◌++◌, ℕ, ◌≡◌, none, some, List, length, get_elem?, ◌==◌,
  if◌then◌else◌,
}
use llp_base.OsFile.{splice, write_success, World, ok, read_success, seek_set}
use llp_base.Schema.{TreeSchema}
use llp_base.DataFile.{write_tree_schema, read_tree_schema}
use llp_base.DataFile.Bytes.{IsSchema, schema_bytes}
use llp_base.DataFile.RoundTrip.{write_tree_schema-bytes}
use llp_base.DataFile.Reading.{read_tree_schema-bytes}
use llp_base.BaseApi.{get_types, conv_i_to_o}
use llp_base.Store.Slots.{IsStore, types_of}

-- The stream stands behind the schema.
abbrev pub behind_schema : World → TreeSchema → World
behind_schema w s = record w { pos = length (schema_bytes s) }

module _ {s : TreeSchema} {area : List ℕ} (w : World) (i : IsStore w.usable w.bytes s area) where
  pub read_tree_schema-IsStore : read_tree_schema w ≡ ok (read_success, s) (behind_schema w s)
  read_tree_schema-IsStore = read_tree_schema-bytes w s area i.schema i.layout

  pub read_tree_schema_0 :
      read_tree_schema (record w { pos = 0 }) ≡ ok (read_success, s) (behind_schema w s)
  read_tree_schema_0 = read_tree_schema-bytes (record w { pos = 0 }) s area i.schema i.layout

  pub get_types-IsStore : get_types w ≡ ok (types_of s, s.meta.template_size) (behind_schema w s)
  unfolding get_types seek_set
  get_types-IsStore = rw read_tree_schema_0

  -- `convItoO` finds the offset of an id that is in use, and fails on one that is not.
  pub conv_i_to_o-IsStore :
      (id offset : ℕ)
      → get_elem? s.root id ≡ some offset
      → conv_i_to_o id w ≡ ok (if offset == 0 then none else some offset) (behind_schema w s)
  unfolding conv_i_to_o seek_set
  conv_i_to_o-IsStore id offset h = rw (read_tree_schema_0, h)

  -- Another schema of the same size takes the place of the schema.
  pub write_tree_schema-IsStore :
      (s' : TreeSchema) (p : ℕ)
      → IsSchema w.usable s'
      → length (schema_bytes s') ≡ length (schema_bytes s)
      → write_tree_schema s' (record w { pos = p })
        ≡ ok write_success
            (record w { bytes = schema_bytes s' ++ area; pos = length (schema_bytes s) })
  write_tree_schema-IsStore s' p is same =
      let bytes : splice 0 (schema_bytes s') w.bytes ≡ schema_bytes s' ++ area =
        unfold splice in
        (ap (λ n. schema_bytes s' ++ drop n w.bytes) same
          ∙ ap (λ b. schema_bytes s' ++ drop (length (schema_bytes s)) b) i.layout
          ∙ ap (λ t. schema_bytes s' ++ t) (drop-append (schema_bytes s) area)) in
      write_tree_schema-bytes (record w { pos = p }) s' w.usable is
      ∙ ap₂ (λ b n. ok write_success (record w { bytes = b; pos = n })) bytes same
