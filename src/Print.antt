-- ===== src/Print.antt =====
-- `printNodesFrom` and `printTreeSchema` of storage/StorageFileInnerAPI/storageFileInner.c: the text
-- that they print.
use llp_base.Common.{
  ℕ, zero, suc, ◌+◌, ◌/◌, ◌^◌, List, [], ◌∷◌, ◌++◌, get_elem?, ◌==◌, ◌||◌, codes, if◌then◌else◌,
}
use llp_base.OsFile.{Io, pure, ◌>>=◌, ◌>>◌, seek_set}
use llp_base.DataFile.{defined, read_tree_schema, read_node, read_string_from_node}
use llp_base.BaseApi.{get_types, root_at, data_at}
use llp_base.Schema.{
  TreeSchema, AttributeInfo, KeyNode, int_type, float_type, string_type, bool_type,
}
use llp_base.Text.{text_of}
use llp_base.Format.{decimal, signed_decimal, hexadecimal, pad_left, pad_right}

-- "Attribute: %-20s; Value: value;\n".
unfoldable pub printed_attribute : AttributeInfo → List ℕ → Io (List ℕ)
printed_attribute a value = do
  name ← defined (text_of a.attribute_name)
  pure (codes "Attribute: " ++ pad_right 20 name ++ codes "; Value: " ++ value ++ codes ";\n")

-- `show_double` prints a `double` of these bits as "%.6f".
module _ (show_double : ℕ → List ℕ) (fuel : ℕ) (schema : TreeSchema) where
  unfoldable pub printed_value : ℕ → KeyNode → ℕ → ℕ → Io (List ℕ)
  unfolding printed_attribute
  printed_value size node type j = do
    attr ← defined (get_elem? schema.nodes_template j)
    if type == string_type
        then (do
          link ← data_at node j
          s ← read_string_from_node fuel schema.meta.template_size link
          value ← defined (text_of s)
          printed_attribute attr value)
        else if (type == int_type) || (type == bool_type)
        then (do n ← data_at node j; printed_attribute attr (decimal n))
        else if type == float_type
        then (do n ← data_at node j; printed_attribute attr (show_double n))
        else pure []

  -- The loop over the attributes, from `j` on.
  unfoldable pub printed_values : ℕ → KeyNode → List ℕ → ℕ → Io (List ℕ)
  unfolding printed_value
  printed_values size node [] j = pure []
  printed_values size node (type ∷ types) j = do
    line ← printed_value size node type j
    rest ← printed_values size node types (j + 1)
    pure (line ++ rest)

  -- The loop over the ids, from `i` on.
  unfoldable pub printed_nodes : ℕ → List ℕ → ℕ → ℕ → Io (List ℕ)
  unfolding printed_values
  printed_nodes size types zero i = pure []
  printed_nodes size types (suc left) i = do
    offset ← root_at schema i
    if offset == 0 then printed_nodes size types left (i + 1) else do
      seek_set offset
      (_, node) ← read_node size
      lines ← printed_values size node types 0
      rest ← printed_nodes size types left (i + 1)
      pure (codes "<----- Node " ++ pad_left 3 (decimal i) ++ codes " ----->\n" ++ lines ++ rest)

unfoldable pub print_nodes_from : (ℕ → List ℕ) → ℕ → Io (List ℕ)
unfolding printed_nodes
print_nodes_from show_double fuel = do
  (_, schema) ← read_tree_schema
  (types, size) ← get_types
  printed_nodes show_double fuel schema size types schema.meta.cur_id 0

-- "Key %3d [Type %3d]: %s\n" for each attribute of the template.
unfoldable pub printed_template : List AttributeInfo → Io (List ℕ)
printed_template [] = pure []
printed_template (a ∷ attrs) = do
  name ← defined (text_of a.attribute_name)
  rest ← printed_template attrs
  pure (
      codes "Key "
      ++ pad_left 3 (signed_decimal (2 ^ 31) a.size)
      ++ codes " [Type "
      ++ pad_left 3 (signed_decimal (2 ^ 31) a.type)
      ++ codes "]: "
      ++ name
      ++ 10 ∷ rest)

abbrev printed_len : ℕ
printed_len = 16

module _ (schema : TreeSchema) where
  -- `left` entries of the array of ids, from `k` on, each as "%16lx".
  unfoldable pub printed_ids : ℕ → ℕ → Io (List ℕ)
  printed_ids zero k = pure []
  printed_ids (suc left) k = do
    offset ← root_at schema k
    rest ← printed_ids left (k + 1)
    pure (pad_left 16 (hexadecimal offset) ++ rest)

  -- The rows, from the one that begins with entry `k` on.
  unfoldable pub printed_rows : ℕ → ℕ → Io (List ℕ)
  unfolding printed_ids
  printed_rows zero k = pure []
  printed_rows (suc left) k = do
    row ← printed_ids printed_len k
    rest ← printed_rows left (k + printed_len)
    pure (row ++ 10 ∷ rest)

unfoldable pub print_tree_schema : Io (List ℕ)
unfolding printed_template printed_rows
print_tree_schema = do
  (_, schema) ← read_tree_schema
  template ← printed_template schema.nodes_template
  rows ← printed_rows schema (schema.meta.template_size / printed_len) 0
  pure (
      codes "<----- Tree schema ----->\n"
      ++ pad_right 20 (codes "Current ID: ")
      ++ signed_decimal (2 ^ 63) schema.meta.cur_id
      ++ 10 ∷ pad_right 20 (codes "Template size: ")
      ++ signed_decimal (2 ^ 63) schema.meta.template_size
      ++ 10 ∷ codes "<----- Template ----->\n"
      ++ template
      ++ rows)
