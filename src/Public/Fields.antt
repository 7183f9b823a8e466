-- ===== src/Public/Fields.antt =====
-- The attribute that a key names, and the value that a setting has for it.
use llp_base.Common.{
  ℕ, ◌+◌, ◌-◌, Option, none, some, List, [], ◌∷◌, ◌++◌, length, replicate, ◌==◌, if◌then◌else◌,
}
use llp_base.OsFile.{Io, pure, ◌>>=◌}
use llp_base.DataFile.{defined}
use llp_base.Inner.{FieldValue, word, chars, str_equal}
use llp_base.Schema.{bool_type, float_type, int_type, string_type}
use llp_base.Message.{KeyValuePair, max_size}

-- `char[1024]` of a message that was zeroed before it was decoded.
abbrev pub char_array : List ℕ → List ℕ
char_array text = text ++ replicate (max_size - length text) 0

-- The loop that looks for a key among the names: the first that is equal ends it.
unfoldable pub first_field : List ℕ → List (List ℕ) → ℕ → Io (Option ℕ)
first_field key [] i = pure none
first_field key (name ∷ names) i = do
  same ← defined (str_equal key name)
  if same then pure (some i) else first_field key names (i + 1)

-- The loop of `storageFindNodeByFilters`, which does not end at the first.
unfoldable pub last_field : List ℕ → List (List ℕ) → ℕ → Option ℕ → Io (Option ℕ)
last_field key [] i found = pure found
last_field key (name ∷ names) i found = do
  same ← defined (str_equal name key)
  last_field key names (i + 1) (if same then some i else found)

-- What the `switch` over the attribute's type stores, or the error that it returns; of any other type
-- nothing is stored.
pub data Converted : Type 0 where
  stored : FieldValue → Converted
  untouched : Converted
  bool_error float_error int_error str_error : Converted

-- `to_double` takes the bits of a `float` to those of the `double` of that value.
unfoldable pub convert : (ℕ → ℕ) → ℕ → KeyValuePair → Converted
convert to_double type kv =
    if type == bool_type
    then if kv.value_int == 1
      then stored (word 1)
      else if kv.value_int == 0
      then stored (word 0)
      else bool_error
    else if type == float_type
    then if kv.value_type == 2 then stored (word (to_double kv.value_real)) else float_error
    else if type == int_type
    then if kv.value_type == 1 then stored (word kv.value_int) else int_error
    else if type == string_type
    then if kv.value_type == 0 then stored (chars (char_array kv.value_string)) else str_error
    else untouched
