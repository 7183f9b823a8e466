-- ===== src/Public/Insert.antt =====
-- `storageInsertNodeNew`.
use llp_base.Common.{
  ℕ, Option, none, some, List, [], ◌∷◌, length, get_elem?, set, replicate, ◌==◌, if◌then◌else◌,
}
use llp_base.OsFile.{Io, pure, ◌>>=◌, ◌>>◌}
use llp_base.DataFile.{defined}
use llp_base.Inner.{FieldValue, add_node}
use llp_base.Message.{ValueSetting}
use llp_base.Public.Fields.{
  char_array, first_field, convert, Converted, stored, untouched, bool_error, float_error,
  int_error, str_error,
}

-- `enum errCodes`.
pub data ErrCode : Type 0 where
  ok_code pattern_error bool_code float_code int_code str_code count_error : ErrCode

-- The array `fields`: `none` is an entry that is not set.
abbrev pub FieldArray : Type 0
FieldArray = List (Option FieldValue)

unfoldable pub put_field : FieldArray → ℕ → Converted → FieldArray × ErrCode
put_field fields i (stored v) = (set fields i (some v), ok_code)
put_field fields i untouched = (fields, ok_code)
put_field fields i bool_error = (fields, bool_code)
put_field fields i float_error = (fields, float_code)
put_field fields i int_error = (fields, int_code)
put_field fields i str_error = (fields, str_code)

abbrev pub go_on : ErrCode → Io (FieldArray × ErrCode) → FieldArray → Io (FieldArray × ErrCode)
go_on ok_code next fields = next
go_on code next fields = pure (fields, code)

-- The loop over the settings; it ends with the first error.
unfoldable pub fill_fields :
    (ℕ → ℕ) → List ℕ → List (List ℕ) → List ValueSetting → FieldArray → Io (FieldArray × ErrCode)
unfolding put_field convert first_field
fill_fields to_double types names [] fields = pure (fields, ok_code)
fill_fields to_double types names (s ∷ settings) fields = do
  found ← first_field (char_array s.kv.key) names 0
  elim found [
    | none ↦ pure (fields, pattern_error)
    | some i ↦ do
      type ← defined (get_elem? types i)
      let (fields', code) = put_field fields i (convert to_double type s.kv)
      go_on code (fill_fields to_double types names settings fields') fields'
  ]

-- The entries of an array that are all set.
unfoldable pub all_set : FieldArray → Option (List FieldValue)
all_set [] = some []
all_set (none ∷ fields) = none
all_set (some v ∷ fields) = elim (all_set fields) [ none ↦ none | some vs ↦ some (v ∷ vs) ]

unfoldable pub add_filled : List ℕ → ℕ → ErrCode → FieldArray → ℕ → ℕ → Io ErrCode
add_filled fresh parent ok_code fields settings_count template_size =
    if settings_count == template_size
    then (do values ← defined (all_set fields); add_node fresh values parent; pure ok_code)
    else pure count_error
add_filled fresh parent code fields settings_count template_size = pure code

unfoldable pub storage_insert_node :
    (ℕ → ℕ) → List ℕ → List ValueSetting → ℕ → ℕ → List ℕ → List (List ℕ) → Io ErrCode
unfolding fill_fields add_filled all_set
storage_insert_node to_double fresh settings parent template_size types names = do
  (fields, code) ← fill_fields to_double types names settings (replicate template_size none)
  add_filled fresh parent code fields (length settings) template_size
