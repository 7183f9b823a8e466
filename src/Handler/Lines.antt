-- ===== src/Handler/Lines.antt =====
-- The lines that `handleQuery` prints of a node that was found.
use llp_base.Common.{
  ℕ, zero, suc, ◌+◌, List, [], ◌∷◌, ◌++◌, length, get_elem?, ltb, ◌==◌, ◌||◌, codes, if◌then◌else◌,
}
use llp_base.OsFile.{Io, pure, undefined, ◌>>=◌}
use llp_base.DataFile.{defined, read_string_from_node}
use llp_base.BaseApi.{data_at}
use llp_base.Inner.{ResultSet, ResultSetNode}
use llp_base.Schema.{KeyNode, int_type, float_type, string_type, bool_type}
use llp_base.Text.{text_of}
use llp_base.Format.{decimal, pad_left, pad_right}

-- `sprintf(tmp, ...)` of a text: with the zero byte it must fit.
unfoldable pub sprintf_tmp : List ℕ → Io (List ℕ)
sprintf_tmp text = if ltb (length text) 256 then pure text else undefined

-- "%-20s value\n", of an attribute's name.
unfoldable pub attribute_line : List ℕ → List ℕ → Io (List ℕ)
unfolding sprintf_tmp
attribute_line name value = do
  text ← defined (text_of name)
  sprintf_tmp (pad_right 20 text ++ 32 ∷ value ++ 10 ∷ [])

-- `show_double` prints a `double` of these bits as "%.6f".
module _ (show_double : ℕ → List ℕ) (fuel : ℕ) (size : ℕ) (types : List ℕ)
    (names : List (List ℕ)) where
  -- A value of attribute `iter`; of a type that is none of the four nothing is printed.
  unfoldable pub value_line : KeyNode → ℕ → Io (List ℕ)
  unfolding attribute_line
  value_line node iter = do
    type ← defined (get_elem? types iter)
    name ← defined (get_elem? names iter)
    if type == string_type
        then (do
          link ← data_at node iter
          s ← read_string_from_node fuel size link
          value ← defined (text_of s)
          attribute_line name value)
        else if (type == int_type) || (type == bool_type)
        then (do n ← data_at node iter; attribute_line name (decimal n))
        else if type == float_type
        then (do n ← data_at node iter; attribute_line name (show_double n))
        else pure []

  -- The loop over the attributes, from `iter` on.
  unfoldable pub value_lines : ℕ → KeyNode → ℕ → Io (List ℕ)
  unfolding value_line
  value_lines zero node iter = pure []
  value_lines (suc left) node iter = do
    line ← value_line node iter
    rest ← value_lines left node (iter + 1)
    pure (line ++ rest)

  -- "<---- Node %3zu---->\n" and the values.
  unfoldable pub node_lines : ResultSetNode → Io (List ℕ)
  unfolding value_lines sprintf_tmp
  node_lines r = do
    head ← sprintf_tmp (codes "<---- Node " ++ pad_left 3 (decimal r.id) ++ codes "---->\n")
    lines ← value_lines size r.value 0
    pure (head ++ lines)

  -- The loop over the result set.
  unfoldable pub result_lines : ResultSet → Io (List ℕ)
  unfolding node_lines
  result_lines [] = pure []
  result_lines (r ∷ set) = do lines ← node_lines r; rest ← result_lines set; pure (lines ++ rest)
