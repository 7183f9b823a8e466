-- ===== src/Inner/Remove.antt =====
-- `removeNode`: with `strFlag` it removes a string chain, without it a node and its descendants.
use llp_base.Common.{ℕ, zero, suc, ◌+◌, none, some, List, [], ◌∷◌, ◌==◌, if◌then◌else◌}
use llp_base.OsFile.{Io, pure, no_fuel, ◌>>=◌, ◌>>◌, seek_set}
use llp_base.Schema.{next_node, string_type, node_head_size}
use llp_base.Schema.Sizes.{real_node_size}
use llp_base.DataFile.{read_node}
use llp_base.BaseApi.{
  CrudStatus, crud_success, crud_fail, get_types, remove_from_id_array, swap_last_node, data_at,
}
use llp_base.Inner.Values.{ResultSet}
use llp_base.Inner.Find.{find_by_parent}

-- The `while` of `removeNode` along a string chain.
unfoldable pub remove_chain : ℕ → ℕ → ℕ → Io (Unit {0})
remove_chain zero id size = no_fuel
remove_chain (suc fuel) id size = if id == 0 then pure tt else do
  seek_set id
  (_, node) ← read_node size
  swap_last_node id (real_node_size size + node_head_size)
  remove_chain fuel (next_node node.header) size

unfoldable pub remove_string : ℕ → ℕ → Io CrudStatus
unfolding remove_chain
remove_string fuel id = do (_, size) ← get_types; remove_chain fuel id size; pure crud_success

-- The loop over the attributes of the node at `offset`.
unfoldable pub remove_strings : ℕ → ℕ → ℕ → List ℕ → ℕ → Io (Unit {0})
remove_strings fuel offset size [] i = pure tt
remove_strings fuel offset size (type ∷ types) i = do
  if type == string_type
      then (do
        seek_set offset
        (_, node) ← read_node size
        link ← data_at node i
        remove_string fuel link
        pure tt)
      else pure tt
  remove_strings fuel offset size types (i + 1)

-- The loop over the children.
unfoldable pub remove_each : (ℕ → Io CrudStatus) → ResultSet → Io (Unit {0})
remove_each remove [] = pure tt
remove_each remove (child ∷ children) = do remove child.id; remove_each remove children

unfoldable pub remove_tree : ℕ → ℕ → Io CrudStatus
unfolding remove_strings remove_each
remove_tree zero id = no_fuel
remove_tree (suc fuel) id = do
  (types, size) ← get_types
  found ← remove_from_id_array id
  elim found [
    | none ↦ pure crud_fail
    | some offset ↦ do
      remove_strings fuel offset size types 0
      swap_last_node offset (real_node_size size)
      children ← find_by_parent id []
      remove_each (λ child. remove_tree fuel child) children
      pure crud_success
  ]

unfoldable pub remove_node : ℕ → ℕ → ℕ → Io CrudStatus
unfolding remove_string remove_tree
remove_node fuel id str_flag = if str_flag == 0 then remove_tree fuel id else remove_string fuel id
