-- ===== src/Commands/Retrieve.antt =====
-- `storageRetriveNode`: what it finds, or the complaint that it prints.
use llp_base.Common.{
  ℕ, none, some, List, [], ◌∷◌, get_elem?, map, ltb, ◌==◌, ◌||◌, ◌^◌, if◌then◌else◌,
}
use llp_base.OsFile.{Io, pure, undefined, ◌>>=◌, ◌>>◌}
use llp_base.DataFile.{defined, read_tree_schema}
use llp_base.Schema.{bool_type, float_type, int_type, string_type}
use llp_base.BaseApi.{attribute_type}
use llp_base.Inner.{
  FieldValue, word, chars, str_equal, ResultSet, find_by_parent, find_by_field, get_node, as_word,
  as_chars,
}
use llp_base.Public.{last_field}
use llp_base.Text.{c_string, is_numeric}
use llp_base.Commands.Numbers.{atoi}
use llp_base.Commands.Insert.{true_text, false_text}

pub data Complaint : Type 0 where
  wrong_parent_format wrong_count no_such_field not_an_integer not_a_float : Complaint
  not_a_bool unknown_type wrong_id_format incorrect_parameter : Complaint

pub data Answer : Type 0 where
  listing : ResultSet → Answer
  fields : List FieldValue → Answer
  complaint : Complaint → Answer

-- "parent", "field" and "id".
abbrev pub parent_text : List ℕ
parent_text = b'p' ∷ b'a' ∷ b'r' ∷ b'e' ∷ b'n' ∷ b't' ∷ []

abbrev pub field_text : List ℕ
field_text = b'f' ∷ b'i' ∷ b'e' ∷ b'l' ∷ b'd' ∷ []

abbrev pub id_text : List ℕ
id_text = b'i' ∷ b'd' ∷ []

-- The parent is read from `argv[1]`, which is the word "parent".
unfoldable pub retrieve_by_parent : List (List ℕ) → ℕ → Io Answer
retrieve_by_parent argv count =
    if count == 3
    then (do
      arg ← defined (get_elem? argv 2)
      numeric ← defined (is_numeric (c_string arg))
      if numeric
          then (do
            way ← defined (get_elem? argv 1)
            parent ← atoi way
            set ← find_by_parent parent []
            pure (listing set))
          else pure (complaint wrong_parent_format))
    else pure (complaint wrong_count)

module _ (strtod : List ℕ → ℕ) (fuel : ℕ) where
  -- A `bool` is one byte, of which `findByField` reads eight.
  unfoldable pub find_bool : ℕ → List ℕ → Io Answer
  find_bool i text = do
    is_true ← defined (str_equal (c_string text) (c_string true_text))
    is_false ← defined (str_equal (c_string text) (c_string false_text))
    if is_true
        then (do set ← find_by_field fuel i (chars (1 ∷ [])) []; pure (listing set))
        else if is_false
        then (do set ← find_by_field fuel i (chars (0 ∷ [])) []; pure (listing set))
        else pure (complaint not_a_bool)

  unfoldable pub find_int : ℕ → List ℕ → Io Answer
  find_int i text = do
    numeric ← defined (is_numeric (c_string text))
    if numeric
        then (do n ← atoi text; set ← find_by_field fuel i (word n) []; pure (listing set))
        else pure (complaint not_an_integer)

  unfoldable pub find_float : ℕ → List ℕ → Io Answer
  find_float i text =
      if (strtod text == 0) || (strtod text == 2 ^ 63)
      then pure (complaint not_a_float)
      else do set ← find_by_field fuel i (word (strtod text)) []; pure (listing set)

  -- The `switch` over the type of the attribute.
  unfoldable pub find_value : ℕ → ℕ → List ℕ → Io Answer
  unfolding find_int find_float find_bool
  find_value type i text =
      if type == int_type
      then find_int i text
      else if type == float_type
      then find_float i text
      else if type == string_type
      then (do set ← find_by_field fuel i (chars (c_string text)) []; pure (listing set))
      else if type == bool_type
      then find_bool i text
      else pure (complaint unknown_type)

  -- With another count the message is given `argv[3]`, which is there only for a larger one.
  unfoldable pub retrieve_by_field : List ℕ → List (List ℕ) → List (List ℕ) → ℕ → Io Answer
  unfolding find_value last_field
  retrieve_by_field types names argv count =
      if count == 4
      then (do
        key ← defined (get_elem? argv 2)
        found ← last_field (c_string key) names 0 none
        elim found [
          | none ↦ pure (complaint no_such_field)
          | some i ↦ do
            type ← defined (get_elem? types i)
            text ← defined (get_elem? argv 3)
            find_value type i text
        ])
      else do defined (get_elem? argv 3); pure (complaint wrong_count)

  -- The loop that prints the fields: without a `break` a float goes on to be printed as the address of
  -- a string, like all that is neither a number nor a bool.
  unfoldable pub print_fields : List ℕ → List FieldValue → Io (Unit {0})
  print_fields [] values = pure tt
  print_fields (type ∷ types) [] = undefined
  print_fields (type ∷ types) (v ∷ values) = do
    if (type == int_type) || (type == bool_type)
        then (do as_word v; pure tt)
        else (do as_chars v; pure tt)
    print_fields types values

  -- After the complaint about a large id, or of no result, the schema is freed and then used.
  unfoldable pub retrieve_by_id : List (List ℕ) → ℕ → Io Answer
  unfolding print_fields
  retrieve_by_id argv count =
      if count == 3
      then (do
        arg ← defined (get_elem? argv 2)
        numeric ← defined (is_numeric (c_string arg))
        if numeric
            then (do
              id ← atoi arg
              (_, schema) ← read_tree_schema
              found ← get_node fuel id
              if ltb schema.meta.cur_id id then undefined else do
                values ← defined found
                print_fields (map attribute_type schema.nodes_template) values
                pure (fields values))
            else pure (complaint wrong_id_format))
      else pure (complaint wrong_count)

  unfoldable pub storage_retrive_node : List ℕ → List (List ℕ) → List (List ℕ) → ℕ → Io Answer
  unfolding retrieve_by_parent retrieve_by_field retrieve_by_id
  storage_retrive_node types names argv count = do
    way ← defined (get_elem? argv 1)
    by_parent ← defined (str_equal (c_string way) (c_string parent_text))
    by_field ← defined (str_equal (c_string way) (c_string field_text))
    by_id ← defined (str_equal (c_string way) (c_string id_text))
    if by_parent
        then retrieve_by_parent argv count
        else if by_field
        then retrieve_by_field types names argv count
        else if by_id
        then retrieve_by_id argv count
        else pure (complaint incorrect_parameter)
