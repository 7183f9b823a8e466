-- ===== src/Reads/Retrieving.antt =====
-- `storageRetriveNode`.
use llp_base.Common.{ℕ, ◌^◌, none, List, [], ◌∷◌, get_elem?, ltb, ◌==◌, ◌||◌, map}
use llp_base.OsFile.{pure, ◌>>=◌}
use llp_base.Schema.{int_type, float_type, string_type, bool_type}
use llp_base.BaseApi.{attribute_type}
use llp_base.Inner.{FieldValue, word, chars, str_equal, find_by_field}
use llp_base.Text.{c_string, is_numeric}
use llp_base.Commands.{
  Answer, signed, atoi, retrieve_by_parent, find_bool, find_int, find_float, find_value,
  retrieve_by_field, print_fields, retrieve_by_id, storage_retrive_node, true_text, false_text,
  parent_text, field_text, id_text,
}
use llp_base.Reads.{Reads, faulted, pure-Reads, then-Keeps, if-Keeps, option-Keeps, defined-Reads}
use llp_base.Reads.Files.{read_tree_schema-Reads}
use llp_base.Reads.Searches.{
  as_word-Reads, as_chars-Reads, get_node-Reads, find_by_parent-Reads, find_by_field-Reads,
  last_field-Reads,
}

atoi-Reads : (s : List ℕ) → Reads (atoi s)
unfolding atoi
atoi-Reads s w =
    if-Keeps (signed s).0 _ _ w
      (if-Keeps (ltb (2 ^ 31) (signed s).1) _ _ w faulted (pure-Reads _ w))
      (if-Keeps (ltb (signed s).1 (2 ^ 31)) _ _ w (pure-Reads _ w) faulted)

retrieve_by_parent-Reads :
    (argv : List (List ℕ)) (count : ℕ) → Reads (retrieve_by_parent argv count)
unfolding retrieve_by_parent
retrieve_by_parent-Reads argv count w =
    if-Keeps (count == 3) _ _ w
      (then-Keeps (defined-Reads (get_elem? argv 2) w) (λ arg w.
        then-Keeps (defined-Reads (is_numeric (c_string arg)) w) (λ numeric w.
          if-Keeps numeric _ _ w
            (then-Keeps (defined-Reads (get_elem? argv 1) w) (λ way w.
              then-Keeps (atoi-Reads way w) (λ parent w.
                then-Keeps (find_by_parent-Reads parent [] w) (λ set w. pure-Reads _ w))))
            (pure-Reads _ w))))
      (pure-Reads _ w)

module _ (strtod : List ℕ → ℕ) (fuel : ℕ) where
  -- A search by a value, and its listing.
  listing-Reads :
      (i : ℕ) (value : FieldValue)
      → Reads (do set ← find_by_field fuel i value []; pure (Answer.listing set))
  listing-Reads i value w =
      then-Keeps (find_by_field-Reads fuel i value [] w) (λ set w. pure-Reads _ w)

  find_bool-Reads : (i : ℕ) (text : List ℕ) → Reads (find_bool strtod fuel i text)
  unfolding find_bool
  find_bool-Reads i text w =
      then-Keeps (defined-Reads (str_equal (c_string text) (c_string true_text)) w) (λ is_true w.
        then-Keeps (defined-Reads (str_equal (c_string text) (c_string false_text)) w)
          (λ is_false w.
            if-Keeps is_true _ _ w (listing-Reads i (chars (1 ∷ [])) w)
              (if-Keeps is_false _ _ w (listing-Reads i (chars (0 ∷ [])) w) (pure-Reads _ w))))

  find_int-Reads : (i : ℕ) (text : List ℕ) → Reads (find_int strtod fuel i text)
  unfolding find_int
  find_int-Reads i text w = then-Keeps (defined-Reads (is_numeric (c_string text)) w) (λ numeric w.
      if-Keeps numeric _ _ w (then-Keeps (atoi-Reads text w) (λ n w. listing-Reads i (word n) w))
        (pure-Reads _ w))

  find_value-Reads : (type i : ℕ) (text : List ℕ) → Reads (find_value strtod fuel type i text)
  unfolding find_value find_float
  find_value-Reads type i text w = if-Keeps (type == int_type) _ _ w (find_int-Reads i text w) (
      if-Keeps (type == float_type) _ _ w
        (if-Keeps ((strtod text == 0) || (strtod text == 2 ^ 63)) _ _ w (pure-Reads _ w)
          (listing-Reads i (word (strtod text)) w))
        (if-Keeps (type == string_type) _ _ w (listing-Reads i (chars (c_string text)) w)
          (if-Keeps (type == bool_type) _ _ w (find_bool-Reads i text w) (pure-Reads _ w))))

  retrieve_by_field-Reads :
      (types : List ℕ) (names argv : List (List ℕ)) (count : ℕ)
      → Reads (retrieve_by_field strtod fuel types names argv count)
  unfolding retrieve_by_field
  retrieve_by_field-Reads types names argv count w =
      if-Keeps (count == 4) _ _ w
        (then-Keeps (defined-Reads (get_elem? argv 2) w) (λ key w.
          then-Keeps (last_field-Reads (c_string key) names 0 none w) (λ found w.
            option-Keeps found _ _ w (pure-Reads _ w) (λ i.
              then-Keeps (defined-Reads (get_elem? types i) w) (λ type w.
                then-Keeps (defined-Reads (get_elem? argv 3) w)
                  (λ text w. find_value-Reads type i text w))))))
        (then-Keeps (defined-Reads (get_elem? argv 3) w) (λ _ w. pure-Reads _ w))

  print_fields-Reads :
      (types : List ℕ) (values : List FieldValue) → Reads (print_fields strtod fuel types values)
  unfolding print_fields
  print_fields-Reads [] values w = pure-Reads _ w
  print_fields-Reads (type ∷ types) [] w = faulted
  print_fields-Reads (type ∷ types) (v ∷ values) w =
      then-Keeps
        (if-Keeps ((type == int_type) || (type == bool_type)) _ _ w
          (then-Keeps (as_word-Reads v w) (λ n w. pure-Reads _ w))
          (then-Keeps (as_chars-Reads v w) (λ cs w. pure-Reads _ w)))
        (λ _ w. print_fields-Reads types values w)

  retrieve_by_id-Reads :
      (argv : List (List ℕ)) (count : ℕ) → Reads (retrieve_by_id strtod fuel argv count)
  unfolding retrieve_by_id
  retrieve_by_id-Reads argv count w =
      if-Keeps (count == 3) _ _ w
        (then-Keeps (defined-Reads (get_elem? argv 2) w) (λ arg w.
          then-Keeps (defined-Reads (is_numeric (c_string arg)) w) (λ numeric w.
            if-Keeps numeric _ _ w
              (then-Keeps (atoi-Reads arg w) (λ id w. then-Keeps (read_tree_schema-Reads w) (λ p w.
                then-Keeps (get_node-Reads fuel id w) (λ found w.
                  if-Keeps (ltb p.1.meta.cur_id id) _ _ w faulted (
                    then-Keeps (defined-Reads found w) (λ values w.
                      then-Keeps
                        (print_fields-Reads (map attribute_type p.1.nodes_template) values w)
                        (λ _ w. pure-Reads _ w)))))))
              (pure-Reads _ w))))
        (pure-Reads _ w)

  pub storage_retrive_node-Reads :
      (types : List ℕ) (names argv : List (List ℕ)) (count : ℕ)
      → Reads (storage_retrive_node strtod fuel types names argv count)
  unfolding storage_retrive_node
  storage_retrive_node-Reads types names argv count w =
      then-Keeps (defined-Reads (get_elem? argv 1) w) (λ way w.
        then-Keeps (defined-Reads (str_equal (c_string way) (c_string parent_text)) w)
          (λ by_parent w.
            then-Keeps (defined-Reads (str_equal (c_string way) (c_string field_text)) w)
              (λ by_field w.
                then-Keeps (defined-Reads (str_equal (c_string way) (c_string id_text)) w)
                  (λ by_id w. if-Keeps by_parent _ _ w (retrieve_by_parent-Reads argv count w) (
                    if-Keeps by_field _ _ w (retrieve_by_field-Reads types names argv count w) (
                      if-Keeps by_id _ _ w (retrieve_by_id-Reads argv count w)
                        (pure-Reads _ w)))))))
