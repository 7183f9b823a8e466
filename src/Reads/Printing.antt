-- ===== src/Reads/Printing.antt =====
-- printNodesFrom and printTreeSchema.
use llp_base.Common.{ℕ, zero, suc, ◌+◌, ◌/◌, List, [], ◌∷◌, get_elem?, ◌==◌, ◌||◌}
use llp_base.Schema.{
  TreeSchema, AttributeInfo, KeyNode, int_type, float_type, string_type, bool_type,
}
use llp_base.Text.{text_of}
use llp_base.Format.{decimal}
use llp_base.Print.{
  printed_attribute, printed_value, printed_values, printed_nodes, print_nodes_from,
  printed_template, printed_ids, printed_rows, print_tree_schema,
}
use llp_base.Reads.{Reads, pure-Reads, then-Keeps, if-Keeps, defined-Reads}
use llp_base.Reads.Files.{
  seek_set-Reads, read_node-Reads, read_tree_schema-Reads, read_string_from_node-Reads,
}
use llp_base.Reads.Searches.{get_types-Reads, root_at-Reads, data_at-Reads}

printed_attribute-Reads : (a : AttributeInfo) (value : List ℕ) → Reads (printed_attribute a value)
unfolding printed_attribute
printed_attribute-Reads a value w =
    then-Keeps (defined-Reads (text_of a.attribute_name) w) (λ name w. pure-Reads _ w)

module _ (show_double : ℕ → List ℕ) (fuel : ℕ) (schema : TreeSchema) where
  printed_value-Reads :
      (size : ℕ) (node : KeyNode) (type j : ℕ)
      → Reads (printed_value show_double fuel schema size node type j)
  unfolding printed_value
  printed_value-Reads size node type j w =
      then-Keeps (defined-Reads (get_elem? schema.nodes_template j) w) (λ attr w.
        if-Keeps (type == string_type) _ _ w
          (then-Keeps (data_at-Reads node j w) (λ link w.
            then-Keeps (read_string_from_node-Reads fuel schema.meta.template_size link w) (λ s w.
              then-Keeps (defined-Reads (text_of s) w)
                (λ value w. printed_attribute-Reads attr value w))))
          (if-Keeps ((type == int_type) || (type == bool_type)) _ _ w
            (then-Keeps (data_at-Reads node j w)
              (λ n w. printed_attribute-Reads attr (decimal n) w))
            (if-Keeps (type == float_type) _ _ w
              (then-Keeps (data_at-Reads node j w)
                (λ n w. printed_attribute-Reads attr (show_double n) w))
              (pure-Reads _ w))))

  printed_values-Reads :
      (size : ℕ) (node : KeyNode) (types : List ℕ) (j : ℕ)
      → Reads (printed_values show_double fuel schema size node types j)
  unfolding printed_values
  printed_values-Reads size node [] j w = pure-Reads _ w
  printed_values-Reads size node (type ∷ types) j w =
      then-Keeps (printed_value-Reads size node type j w) (λ line w.
        then-Keeps (printed_values-Reads size node types (j + 1) w) (λ rest w. pure-Reads _ w))

  printed_nodes-Reads :
      (size : ℕ) (types : List ℕ) (left i : ℕ)
      → Reads (printed_nodes show_double fuel schema size types left i)
  unfolding printed_nodes
  printed_nodes-Reads size types zero i w = pure-Reads _ w
  printed_nodes-Reads size types (suc left) i w = then-Keeps (root_at-Reads schema i w) (λ offset w.
      if-Keeps (offset == 0) _ _ w (printed_nodes-Reads size types left (i + 1) w) (
        then-Keeps (seek_set-Reads offset w) (λ _ w. then-Keeps (read_node-Reads size w) (λ p w.
          then-Keeps (printed_values-Reads size p.1 types 0 w) (λ lines w.
            then-Keeps (printed_nodes-Reads size types left (i + 1) w)
              (λ rest w. pure-Reads _ w))))))

pub print_nodes_from-Reads :
    (show_double : ℕ → List ℕ) (fuel : ℕ) → Reads (print_nodes_from show_double fuel)
unfolding print_nodes_from
print_nodes_from-Reads show_double fuel w = then-Keeps (read_tree_schema-Reads w) (λ p w.
    then-Keeps (get_types-Reads w)
      (λ q w. printed_nodes-Reads show_double fuel p.1 q.1 q.0 p.1.meta.cur_id 0 w))

printed_template-Reads : (attrs : List AttributeInfo) → Reads (printed_template attrs)
unfolding printed_template
printed_template-Reads [] w = pure-Reads _ w
printed_template-Reads (a ∷ attrs) w =
    then-Keeps (defined-Reads (text_of a.attribute_name) w)
      (λ name w. then-Keeps (printed_template-Reads attrs w) (λ rest w. pure-Reads _ w))

printed_ids-Reads : (schema : TreeSchema) (left k : ℕ) → Reads (printed_ids schema left k)
unfolding printed_ids
printed_ids-Reads schema zero k w = pure-Reads _ w
printed_ids-Reads schema (suc left) k w =
    then-Keeps (root_at-Reads schema k w)
      (λ offset w. then-Keeps (printed_ids-Reads schema left (k + 1) w) (λ rest w. pure-Reads _ w))

printed_rows-Reads : (schema : TreeSchema) (left k : ℕ) → Reads (printed_rows schema left k)
unfolding printed_rows
printed_rows-Reads schema zero k w = pure-Reads _ w
printed_rows-Reads schema (suc left) k w =
    then-Keeps (printed_ids-Reads schema 16 k w)
      (λ row w. then-Keeps (printed_rows-Reads schema left (k + 16) w) (λ rest w. pure-Reads _ w))

pub print_tree_schema-Reads : Reads print_tree_schema
unfolding print_tree_schema
print_tree_schema-Reads w = then-Keeps (read_tree_schema-Reads w) (λ p w.
    then-Keeps (printed_template-Reads p.1.nodes_template w) (λ template w.
      then-Keeps (printed_rows-Reads p.1 (p.1.meta.template_size / 16) 0 w)
        (λ rows w. pure-Reads _ w)))
