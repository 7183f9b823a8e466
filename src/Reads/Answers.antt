-- ===== src/Reads/Answers.antt =====
-- The answers of storage/handler.c to a query for nodes.
use llp_base.Common.{
  ℕ, zero, suc, ◌+◌, ◌≡◌, Option, none, some, List, [], ◌∷◌, ◌++◌, length, get_elem?, ltb, ◌==◌,
  ◌||◌, map, codes,
}
use llp_base.OsFile.{Io}
use llp_base.Schema.{KeyNode, int_type, float_type, string_type, bool_type}
use llp_base.BaseApi.{attribute_type, attribute_name_of}
use llp_base.Inner.{ResultSet, ResultSetNode}
use llp_base.Message.{Query}
use llp_base.Text.{text_of}
use llp_base.Format.{decimal, pad_left}
use llp_base.Handler.{
  sprintf_tmp, attribute_line, value_line, value_lines, node_lines, result_lines, answer_search,
  run_command, handle_query,
}
use llp_base.Reads.{Reads, faulted, pure-Reads, then-Keeps, if-Keeps, defined-Reads}
use llp_base.Reads.Files.{read_tree_schema-Reads, read_string_from_node-Reads}
use llp_base.Reads.Searches.{data_at-Reads, storage_find_node_by_filters-Reads}

sprintf_tmp-Reads : (line : List ℕ) → Reads (sprintf_tmp line)
unfolding sprintf_tmp
sprintf_tmp-Reads line w = if-Keeps (ltb (length line) 256) _ _ w (pure-Reads _ w) faulted

attribute_line-Reads : (name value : List ℕ) → Reads (attribute_line name value)
unfolding attribute_line
attribute_line-Reads name value w =
    then-Keeps (defined-Reads (text_of name) w) (λ text w. sprintf_tmp-Reads _ w)

module _ (show_double : ℕ → List ℕ) (fuel size : ℕ) (types : List ℕ) (names : List (List ℕ)) where
  value_line-Reads :
      (node : KeyNode) (iter : ℕ) → Reads (value_line show_double fuel size types names node iter)
  unfolding value_line
  value_line-Reads node iter w = then-Keeps (defined-Reads (get_elem? types iter) w) (λ type w.
      then-Keeps (defined-Reads (get_elem? names iter) w) (λ name w.
        if-Keeps (type == string_type) _ _ w
          (then-Keeps (data_at-Reads node iter w) (λ link w.
            then-Keeps (read_string_from_node-Reads fuel size link w) (λ s w.
              then-Keeps (defined-Reads (text_of s) w)
                (λ value w. attribute_line-Reads name value w))))
          (if-Keeps ((type == int_type) || (type == bool_type)) _ _ w
            (then-Keeps (data_at-Reads node iter w)
              (λ n w. attribute_line-Reads name (decimal n) w))
            (if-Keeps (type == float_type) _ _ w
              (then-Keeps (data_at-Reads node iter w)
                (λ n w. attribute_line-Reads name (show_double n) w))
              (pure-Reads _ w)))))

  value_lines-Reads :
      (left : ℕ) (node : KeyNode) (iter : ℕ)
      → Reads (value_lines show_double fuel size types names left node iter)
  unfolding value_lines
  value_lines-Reads zero node iter w = pure-Reads _ w
  value_lines-Reads (suc left) node iter w =
      then-Keeps (value_line-Reads node iter w)
        (λ line w. then-Keeps (value_lines-Reads left node (iter + 1) w) (λ rest w. pure-Reads _ w))

  node_lines-Reads : (r : ResultSetNode) → Reads (node_lines show_double fuel size types names r)
  unfolding node_lines
  node_lines-Reads r w =
      then-Keeps
        (sprintf_tmp-Reads (codes "<---- Node " ++ pad_left 3 (decimal r.id) ++ codes "---->\n") w)
        (λ head w. then-Keeps (value_lines-Reads size r.value 0 w) (λ lines w. pure-Reads _ w))

  result_lines-Reads :
      (set : ResultSet) → Reads (result_lines show_double fuel size types names set)
  unfolding result_lines
  result_lines-Reads [] w = pure-Reads _ w
  result_lines-Reads (r ∷ set) w =
      then-Keeps (node_lines-Reads r w)
        (λ lines w. then-Keeps (result_lines-Reads set w) (λ rest w. pure-Reads _ w))

answer_search-Reads :
    (complaint title : List ℕ) (body : ResultSet → Io (List ℕ)) (found : Option ResultSet)
    → ((set : ResultSet) → Reads (body set))
    → Reads (answer_search complaint title body found)
unfolding answer_search
answer_search-Reads complaint title body none h w = pure-Reads _ w
answer_search-Reads complaint title body (some []) h w = pure-Reads _ w
answer_search-Reads complaint title body (some (r ∷ set)) h w =
    then-Keeps (h (r ∷ set) w) (λ lines w. pure-Reads _ w)

module _ (to_double : ℕ → ℕ) (show_double : ℕ → List ℕ) (fuel : ℕ) (at_value fresh : List ℕ) where
  -- A query for nodes leaves the bytes of the file as they were, whatever the file holds, also where
  -- it answers that a field does not exist or that nothing was found.
  pub handle_query-Reads :
      (query : Query)
      → query.command ≡ 0
      → Reads (handle_query to_double show_double fuel at_value fresh query)
  unfolding handle_query run_command
  handle_query-Reads query search w = then-Keeps (read_tree_schema-Reads w) (λ p w. rw search (
      then-Keeps
        (storage_find_node_by_filters-Reads fuel query.filters_list []
          (map attribute_name_of p.1.nodes_template) w)
        (λ found w.
          answer_search-Reads (codes "At least one of your fields doesn't exist.\n")
            (codes "<---- Receive Result ---->\n")
            (result_lines show_double fuel p.1.meta.template_size
              (map attribute_type p.1.nodes_template) (map attribute_name_of p.1.nodes_template))
            found
            (result_lines-Reads show_double fuel p.1.meta.template_size
              (map attribute_type p.1.nodes_template) (map attribute_name_of p.1.nodes_template))
            w)))
