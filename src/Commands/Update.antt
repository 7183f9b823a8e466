-- ===== src/Commands/Update.antt =====
-- `storageUpdateNode`.
use llp_base.Common.{
  ℕ, zero, suc, ◌-◌, Option, none, some, List, [], ◌∷◌, drop, get_elem?, if◌then◌else◌,
}
use llp_base.OsFile.{Io, pure, undefined, ◌>>=◌, ◌>>◌}
use llp_base.DataFile.{defined}
use llp_base.Inner.{FieldValue, word, chars, update_node}
use llp_base.Text.{c_string, is_numeric}
use llp_base.Commands.Numbers.{atoi}
use llp_base.Commands.Insert.{
  StorageOp, success, id_format_fail, wrong_args_number_fail, template_fail, conversion_fail, given,
  kept, unreadable, text_value, named_field,
}

-- What `updateNode` finds at `&value`: the number, or the bytes of a string's address, with those of
-- memory behind it (`at_value`).
unfoldable pub seen_value : List ℕ → FieldValue → FieldValue
seen_value at_value (word n) = word n
seen_value at_value (chars cs) = chars at_value

module _ (strtod : List ℕ → ℕ) (behind : List ℕ) (types : List ℕ) (names : List (List ℕ)) (fuel : ℕ)
    (at_value : List ℕ) (id : List ℕ) where
  -- The loop over as many arguments as `left` says; `value` keeps what the argument before left in it.
  unfoldable pub update_args : ℕ → List (List ℕ) → Option FieldValue → Io StorageOp
  unfolding text_value named_field seen_value
  update_args zero args value = pure success
  update_args (suc left) [] value = undefined
  update_args (suc left) (arg ∷ args) value = do
    field ← named_field strtod behind types names arg
    elim field [
      | none ↦ pure wrong_args_number_fail
      | some (none, parts) ↦ pure template_fail
      | some (some i, parts) ↦ do
        type ← defined (get_elem? types i)
        new ← text_value strtod behind types names atoi type parts
        elim new [
          | given v ↦ do
            node ← atoi id
            update_node fuel i (seen_value at_value v) node
            update_args left args (some v)
          | kept ↦ do
            v ← defined value
            node ← atoi id
            update_node fuel i (seen_value at_value v) node
            update_args left args value
          | unreadable ↦ pure conversion_fail
        ]
    ]

-- `str` has the entries of the array that are set, `fields_count` how many it should have.
unfoldable pub storage_update_command :
    (List ℕ → ℕ) → List ℕ → List ℕ → List (List ℕ) → ℕ → List ℕ → List (List ℕ) → ℕ → Io StorageOp
unfolding update_args
storage_update_command strtod behind types names fuel at_value str fields_count = do
  id ← defined (get_elem? str 1)
  numeric ← defined (is_numeric (c_string id))
  if numeric
      then update_args strtod behind types names fuel at_value id (fields_count - 2) (drop 2 str)
          none
      else pure id_format_fail
