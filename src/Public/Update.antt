-- ===== src/Public/Update.antt =====
-- `storageUpdateNodeNew`, and `storageDeleteNode`.
use llp_base.Common.{
  ℕ, ◌%◌, Option, none, some, List, [], ◌∷◌, length, get_elem?, ltb, ◌==◌, if◌then◌else◌,
}
use llp_base.OsFile.{Io, pure, undefined, ◌>>=◌, ◌>>◌, usable_size}
use llp_base.DataFile.{defined}
use llp_base.Inner.{FieldValue, word, chars, update_node}
use llp_base.Message.{ValueSetting}
use llp_base.Public.Fields.{char_array, first_field, convert, Converted, stored, untouched}

-- `pPos` is an `int8_t`: 255 reads as -1, which stands for no attribute, and any other negative index
-- is outside the arrays.
unfoldable pub as_int8 : Option ℕ → Io (Option ℕ)
as_int8 none = pure none
as_int8 (some i) =
    if i % 256 == 255
    then pure none
    else if ltb (i % 256) 128
    then pure (some (i % 256))
    else undefined

-- A string is copied to a block of 64 bytes, and `value` becomes the block's address: `at_value` is
-- what memory holds at `&value` from then on, and that is what `updateNode` gets.
unfoldable pub update_value : List ℕ → ValueSetting → FieldValue → Io FieldValue
update_value at_value s (word n) = pure (word n)
update_value at_value s (chars cs) = do
  room ← usable_size 64
  if ltb (length s.kv.value_string) room then pure (chars at_value) else undefined

module _ (fuel : ℕ) (to_double : ℕ → ℕ) (at_value : List ℕ) (id : ℕ) (types : List ℕ)
    (names : List (List ℕ)) where
  -- One setting: `value` keeps what the setting before left in it when the type is none of the four.
  unfoldable pub update_field :
      ℕ → Converted → ValueSetting → Option FieldValue → Io (Option (Option FieldValue))
  unfolding update_value
  update_field i (stored v) s value = do
    v' ← update_value at_value s v
    update_node fuel i v' id
    pure (some (some v'))
  update_field i untouched s value = do
    v ← defined value
    update_node fuel i v id
    pure (some value)
  update_field i _ s value = pure none

  -- The loop over the settings: 3 for a key that names no attribute, 4 for a value of another type; what
  -- came before the error stays updated.
  unfoldable pub update_fields : List ValueSetting → Option FieldValue → Io ℕ
  unfolding update_field as_int8 convert first_field
  update_fields [] value = pure 0
  update_fields (s ∷ settings) value = do
    place ← first_field (char_array s.kv.key) names 0
    found ← as_int8 place
    elim found [
      | none ↦ pure 3
      | some i ↦ do
        type ← defined (get_elem? types i)
        done ← update_field i (convert to_double type s.kv) s value
        elim done [ none ↦ pure 4 | some value' ↦ update_fields settings value' ]
    ]

  unfoldable pub storage_update_node : List ValueSetting → Io ℕ
  unfolding update_fields
  storage_update_node settings = update_fields settings none
