-- ===== src/Commands/Insert.antt =====
-- `storageInsertNode` and `storageDeleteNode`. The strings of an array of arguments are their
-- characters, without the zero byte.
use llp_base.Common.{
  ℕ, zero, suc, Option, none, some, List, [], ◌∷◌, drop, get_elem?, set, replicate, ◌==◌, ◌||◌, ◌^◌,
  if◌then◌else◌,
}
use llp_base.OsFile.{Io, pure, undefined, ◌>>=◌, ◌>>◌}
use llp_base.DataFile.{defined}
use llp_base.BaseApi.{CrudStatus, crud_success}
use llp_base.Inner.{FieldValue, word, chars, str_equal, add_node, remove_node}
use llp_base.Public.{first_field, FieldArray, all_set}
use llp_base.Schema.{bool_type, float_type, int_type, string_type}
use llp_base.Text.{c_string, split, is_numeric}
use llp_base.Commands.Numbers.{strtol, atoi}

-- `enum storageOp`, as far as it is returned.
pub data StorageOp : Type 0 where
  success id_format_fail wrong_args_number_fail template_fail conversion_fail id_not_exist_fail :
      StorageOp

-- "True" and "False".
abbrev pub true_text : List ℕ
true_text = b'T' ∷ b'r' ∷ b'u' ∷ b'e' ∷ []

abbrev pub false_text : List ℕ
false_text = b'F' ∷ b'a' ∷ b'l' ∷ b's' ∷ b'e' ∷ []

-- What the `switch` over the attribute's type does of `attrNames[1]`.
pub data TextValue : Type 0 where
  given : FieldValue → TextValue
  kept : TextValue
  unreadable : TextValue

unfoldable pub bool_text : List ℕ → Io TextValue
bool_text text = do
  is_true ← defined (str_equal (c_string text) (c_string true_text))
  is_false ← defined (str_equal (c_string text) (c_string false_text))
  pure (if is_true then given (word 1) else if is_false then given (word 0) else unreadable)

-- A zero, of either sign, is taken for a failure.
unfoldable pub float_text : ℕ → TextValue
float_text bits = if (bits == 0) || (bits == 2 ^ 63) then unreadable else given (word bits)

unfoldable pub int_text : (List ℕ → Io ℕ) → List ℕ → Io TextValue
int_text to_int text = do
  numeric ← defined (is_numeric (c_string text))
  if numeric then (do n ← to_int text; pure (given (word n))) else pure unreadable

module _ (strtod : List ℕ → ℕ) (behind : List ℕ) (types : List ℕ) (names : List (List ℕ)) where
  unfoldable pub text_value : (List ℕ → Io ℕ) → ℕ → List (List ℕ) → Io TextValue
  unfolding bool_text float_text int_text
  text_value to_int type parts =
      if type == bool_type
      then (do text ← defined (get_elem? parts 1); bool_text text)
      else if type == float_type
      then (do text ← defined (get_elem? parts 1); pure (float_text (strtod text)))
      else if type == int_type
      then (do text ← defined (get_elem? parts 1); int_text to_int text)
      else if type == string_type
      then (do text ← defined (get_elem? parts 1); pure (given (chars (c_string text))))
      else pure kept

  -- `split(str[i], '=', &attrNames)` and the loop over the template: the attribute and the parts.
  unfoldable pub named_field : List ℕ → Io (Option (Option ℕ × List (List ℕ)))
  unfolding first_field
  named_field arg = do
    (count, parts) ← defined (split (c_string arg) b'=' behind)
    if count == 2
        then (do
          key ← defined (get_elem? parts 0)
          found ← first_field (c_string key) names 0
          pure (some (found, parts)))
        else pure none

  -- The loop over the arguments, as many as there are attributes.
  unfoldable pub insert_fields : ℕ → List (List ℕ) → FieldArray → Io (StorageOp × FieldArray)
  unfolding text_value named_field
  insert_fields zero args fields = pure (success, fields)
  insert_fields (suc n) [] fields = undefined
  insert_fields (suc n) (arg ∷ args) fields = do
    field ← named_field arg
    elim field [
      | none ↦ pure (wrong_args_number_fail, fields)
      | some (none, parts) ↦ pure (template_fail, fields)
      | some (some i, parts) ↦ do
        type ← defined (get_elem? types i)
        value ← text_value (λ s. pure (strtol s)) type parts
        elim value [
          | given v ↦ insert_fields n args (set fields i (some v))
          | kept ↦ insert_fields n args fields
          | unreadable ↦ pure (conversion_fail, fields)
        ]
    ]

  -- The call of `addNode`, when the loop has come through; its status is not looked at.
  unfoldable pub add_inserted : List ℕ → List ℕ → StorageOp → FieldArray → Io StorageOp
  unfolding all_set
  add_inserted fresh id success fields = do
    values ← defined (all_set fields)
    add_node fresh values (strtol id)
    pure success
  add_inserted fresh id op fields = pure op

  unfoldable pub storage_insert_command : List ℕ → List (List ℕ) → ℕ → Io StorageOp
  unfolding insert_fields add_inserted
  storage_insert_command fresh str template_size = do
    id ← defined (get_elem? str 1)
    numeric ← defined (is_numeric (c_string id))
    if numeric
        then (do
          (op, fields) ← insert_fields template_size (drop 2 str) (replicate template_size none)
          add_inserted fresh id op fields)
        else pure id_format_fail

abbrev op_of_crud : CrudStatus → StorageOp
op_of_crud crud_success = success
op_of_crud _ = id_not_exist_fail

unfoldable pub storage_delete_node : ℕ → List ℕ → ℕ → Io StorageOp
storage_delete_node fuel id_str is_str = do
  numeric ← defined (is_numeric (c_string id_str))
  if numeric
      then (do id ← atoi id_str; status ← remove_node fuel id is_str; pure (op_of_crud status))
      else pure id_format_fail
