-- ===== src/Public/Find.antt =====
-- `storageFindNodeByFilters`, all of it: a query for the children of a node, for a node by its id, or
-- with filters.
use llp_base.Common.{ℕ, Option, none, some, Bool, List, [], ◌∷◌, codes, if◌then◌else◌}
use llp_base.OsFile.{Io, pure, undefined, ◌>>=◌, ◌>>◌}
use llp_base.DataFile.{read_tree_schema, defined}
use llp_base.BaseApi.{get_types}
use llp_base.Inner.{ResultSet, str_equal, find_by_parent, get_node}
use llp_base.Message.{Comparator, Filter}
use llp_base.Public.Fields.{char_array}
use llp_base.Public.Filter.{scan_filters}
use llp_base.Text.{c_string}

abbrev only : {A : Type 0} → List A → Option A
only (a ∷ []) = some a
only _ = none

-- `filtCount == 1 && filt[0].compList_count == 1`, with the comparator that is then looked at.
unfoldable pub single_comparator : List Filter → Option Comparator
single_comparator (f ∷ []) = only f.comp_list
single_comparator _ = none

unfoldable pub key_is : Comparator → List ℕ → Io Bool
key_is c text = defined (str_equal (char_array c.kv.key) (c_string text))

-- After `getNode` the fields are copied to where the new node's `data` happens to point, or, when there
-- is no such node, `fields` is freed without having been set.
unfoldable pub find_by_id : ℕ → ℕ → Io (Option ResultSet)
find_by_id fuel id = get_node fuel id >> undefined

-- `none` stands for the return of 3, a key that names no attribute; `set` is what `result` holds.
unfoldable pub storage_find_node_by_filters :
    ℕ → List Filter → ResultSet → List (List ℕ) → Io (Option ResultSet)
unfolding single_comparator key_is find_by_id
storage_find_node_by_filters fuel filters set names = do
  (types, size) ← get_types
  (_, schema) ← read_tree_schema
  let by_filters = scan_filters fuel types size names schema filters schema.meta.template_size 0 set
  elim (single_comparator filters) [
    | none ↦ by_filters
    | some c ↦ do
      parent ← key_is c (codes "parent")
      id ← key_is c (codes "id")
      if parent
          then (do set' ← find_by_parent c.kv.value_int set; pure (some set'))
          else if id
          then find_by_id fuel c.kv.value_int
          else by_filters
  ]
