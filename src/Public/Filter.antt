-- ===== src/Public/Filter.antt =====
-- `storageFindNodeByFilters`.
use llp_base.Common.{
  ℕ, zero, suc, ◌+◌, ◌%◌, Option, none, some, Bool, false, not, List, [], ◌∷◌, length, get_elem?,
  ltb, leb, ◌==◌, if◌then◌else◌,
}
use llp_base.OsFile.{Io, pure, ◌>>=◌, ◌>>◌, seek_set}
use llp_base.DataFile.{read_node, read_string_from_node, defined}
use llp_base.BaseApi.{root_at, data_at}
use llp_base.Inner.{ResultSet, append_to_result_set, str_equal}
use llp_base.Schema.{TreeSchema, KeyNode, string_type}
use llp_base.Message.{Comparator, Filter}
use llp_base.Public.Fields.{char_array, last_field}

-- Whether a comparator of a number takes one from `valid`.
unfoldable pub number_fails : ℕ → ℕ → ℕ → Bool
number_fails operation x v =
    if operation == 0
    then not (x == v)
    else if operation == 1
    then leb v x
    else if operation == 2
    then ltb v x
    else if operation == 3
    then leb x v
    else if operation == 4
    then ltb x v
    else if operation == 5
    then x == v
    else false

-- The same of a string, by whether it is equal.
unfoldable pub string_fails : ℕ → Bool → Bool
string_fails operation same =
    if operation == 0 then not same else if operation == 5 then same else false

module _ (fuel : ℕ) (types : List ℕ) (size : ℕ) (names : List (List ℕ)) where
  -- `none` where the key names no attribute.
  unfoldable pub comparator_fails : KeyNode → Comparator → Io (Option Bool)
  unfolding number_fails string_fails last_field
  comparator_fails node c = do
    found ← last_field (char_array c.kv.key) names 0 none
    elim found [
      | none ↦ pure none
      | some i ↦ do
        type ← defined (get_elem? types i)
        field ← data_at node i
        if type == string_type
            then (do
              s ← read_string_from_node fuel size field
              same ← defined (str_equal s (char_array c.kv.value_string))
              pure (some (string_fails c.operation same)))
            else pure (some (number_fails c.operation field c.kv.value_int))
    ]

  -- The loop over a filter's comparators; `valid` is a `uint8_t`.
  unfoldable pub count_valid : KeyNode → List Comparator → ℕ → Io (Option ℕ)
  unfolding comparator_fails
  count_valid node [] valid = pure (some valid)
  count_valid node (c ∷ cs) valid = do
    fails ← comparator_fails node c
    elim fails [
      | none ↦ pure none
      | some f ↦ count_valid node cs (if f then (valid + 255) % 256 else valid)
    ]

  -- The loop over the filters: whether the node is added to the result set.
  unfoldable pub passes_filters : KeyNode → List Filter → Io (Option Bool)
  unfolding count_valid
  passes_filters node [] = pure (some false)
  passes_filters node (f ∷ []) = do
    valid ← count_valid node f.comp_list (length f.comp_list % 256)
    elim valid [ none ↦ pure none | some v ↦ pure (some (not (v == 0))) ]
  passes_filters node (f ∷ g ∷ fs) = do
    valid ← count_valid node f.comp_list (length f.comp_list % 256)
    elim valid [
      | none ↦ pure none
      | some v ↦ if v == 0 then pure (some false) else passes_filters node (g ∷ fs)
    ]

  -- The loop over the ids: as many as there are attributes.
  unfoldable pub scan_filters : TreeSchema → List Filter → ℕ → ℕ → ResultSet → Io (Option ResultSet)
  unfolding passes_filters
  scan_filters schema filters zero i set = pure (some set)
  scan_filters schema filters (suc left) i set = do
    offset ← root_at schema i
    if offset == 0 then scan_filters schema filters left (i + 1) set else do
      seek_set offset
      (_, node) ← read_node size
      passes ← passes_filters node filters
      elim passes [
        | none ↦ pure none
        | some p ↦
            scan_filters schema filters left (i + 1)
              (if p then append_to_result_set node i set else set)
      ]
