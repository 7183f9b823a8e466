-- ===== src/Handler/Query.antt =====
-- `handleQuery`. The file lacks two semicolons, and frees `attrNames` as a schema where `free` is meant.
use llp_base.Common.{ℕ, Option, none, some, List, [], ◌∷◌, ◌++◌, map, ◌==◌, codes, if◌then◌else◌}
use llp_base.OsFile.{Io, pure, ◌>>=◌}
use llp_base.DataFile.{read_tree_schema}
use llp_base.BaseApi.{
  CrudStatus, crud_success, crud_eof, crud_fail, attribute_type, attribute_name_of,
}
use llp_base.Inner.{ResultSet, remove_node}
use llp_base.Message.{Filter, ValueSetting, Query, Comparator}
use llp_base.Public.{
  ErrCode, ok_code, pattern_error, bool_code, float_code, int_code, str_code, count_error,
  storage_find_node_by_filters, storage_insert_node, storage_update_node,
}
use llp_base.Format.{decimal}
use llp_base.Handler.Lines.{sprintf_tmp, result_lines}

abbrev pub no_results : List ℕ
no_results = codes "<---- No Results ---->\n"

unfoldable pub insert_text : ErrCode → List ℕ
insert_text ok_code = codes "Added successfully\n"
insert_text pattern_error = codes "Field does not match pattern\n"
insert_text bool_code = codes "Value is not bool\n"
insert_text float_code = codes "Value is not float\n"
insert_text int_code = codes "Value is not integer\n"
insert_text str_code = codes "Value is not string\n"
insert_text count_error = codes "Wrong number of parameters\n"

unfoldable pub remove_text : CrudStatus → List ℕ
remove_text crud_fail = codes "Already removed"
remove_text crud_success = codes "Removed successfully"
remove_text crud_eof = codes "Removed successfully"

-- `query.filtersList[0].compList[0].kv.valueInt` of a message that was zeroed before it was decoded.
unfoldable pub parent_of : List Filter → ℕ
parent_of [] = 0
parent_of (f ∷ fs) = first_int f.comp_list
  where
    first_int : List Comparator → ℕ
    first_int [] = 0
    first_int (c ∷ cs) = c.kv.value_int

-- The answer to a search that went well, printed by `body`, or the answer that there is nothing.
abbrev pub answer_results : List ℕ → (ResultSet → Io (List ℕ)) → ResultSet → Io (List ℕ)
answer_results title body [] = pure no_results
answer_results title body (r ∷ set) = do lines ← body (r ∷ set); pure (title ++ lines)

unfoldable pub answer_search :
    List ℕ → List ℕ → (ResultSet → Io (List ℕ)) → Option ResultSet → Io (List ℕ)
answer_search complaint title body none = pure complaint
answer_search complaint title body (some set) = answer_results title body set

-- The loop of command 1 over the result set.
unfoldable pub remove_results : ℕ → ResultSet → Io (List ℕ)
unfolding remove_text sprintf_tmp
remove_results fuel [] = pure []
remove_results fuel (r ∷ set) = do
  status ← remove_node fuel r.id 0
  line ← sprintf_tmp (codes "id: " ++ decimal r.id ++ 10 ∷ [])
  rest ← remove_results fuel set
  pure (remove_text status ++ line ++ rest)

-- What `strtod`-like code outside this repository does: `to_double` widens the bits of a `float`, and
-- `show_double` prints those of a `double`. `at_value` and `fresh` are as in `storage_update_node` and
-- `add_node`.
module _ (to_double : ℕ → ℕ) (show_double : ℕ → List ℕ) (fuel : ℕ) (at_value fresh : List ℕ) where
  -- The loop of command 3 over the result set.
  unfoldable pub update_results :
      List ℕ → List (List ℕ) → List ValueSetting → ResultSet → Io (List ℕ)
  unfolding sprintf_tmp
  update_results types names settings [] = pure []
  update_results types names settings (r ∷ set) = do
    code ← storage_update_node fuel to_double at_value r.id types names settings
    error ←
        (if code == 0
          then pure []
          else sprintf_tmp (codes "Error code: " ++ decimal code ++ 10 ∷ []))
    line ← sprintf_tmp (codes "Updated id: " ++ decimal r.id ++ 10 ∷ [])
    rest ← update_results types names settings set
    pure (error ++ line ++ rest)

  -- The `switch` over the command; of a command that is none of the four the answer is empty.
  unfoldable pub run_command : ℕ → List ℕ → List (List ℕ) → Query → Io (List ℕ)
  unfolding answer_search remove_results update_results insert_text parent_of result_lines
  run_command size types names query =
      if query.command == 0
      then (do
        found ← storage_find_node_by_filters fuel query.filters_list [] names
        answer_search (codes "At least one of your fields doesn't exist.\n")
            (codes "<---- Receive Result ---->\n") (result_lines show_double fuel size types names)
            found)
      else if query.command == 1
      then (do
        found ← storage_find_node_by_filters fuel query.filters_list [] names
        answer_search (codes "At least one of your fields doesn't exist.\n")
            (codes "<---- Remove result ---->\n") (remove_results fuel) found)
      else if query.command == 2
      then (do
        code ←
            storage_insert_node to_double fresh query.settings_list (parent_of query.filters_list)
              size types names
        pure (insert_text code))
      else if query.command == 3
      then (do
        found ← storage_find_node_by_filters fuel query.filters_list [] names
        answer_search (codes "At least one of your fields doesn't exist.")
            (codes "<---- Update Result ---->\n") (update_results types names query.settings_list)
            found)
      else pure []

  unfoldable pub handle_query : Query → Io (List ℕ)
  unfolding run_command
  handle_query query = do
    (_, schema) ← read_tree_schema
    run_command schema.meta.template_size (map attribute_type schema.nodes_template)
        (map attribute_name_of schema.nodes_template) query
