-- ===== src/Reads/Searches.antt =====
-- The searches of storageFileInner.c and storageFilePublic.c.
use llp_base.Common.{
  ℕ, words_from_le, zero, suc, ◌+◌, Option, none, Bool, List, [], ◌∷◌, get_elem?, ◌==◌, codes,
}
use llp_base.OsFile.{Io, pure}
use llp_base.Schema.{TreeSchema, KeyNode, string_type}
use llp_base.BaseApi.{get_types, conv_i_to_o, root_at, data_at}
use llp_base.Inner.{
  FieldValue, word, chars, as_word, as_chars, ResultSet, str_equal, scan, find_by_parent,
  field_matches, find_by_field, load_value, load_values, get_node,
}
use llp_base.Text.{c_string}
use llp_base.Message.{Comparator, Filter}
use llp_base.Public.{
  char_array, last_field, comparator_fails, count_valid, passes_filters, scan_filters,
  single_comparator, key_is, find_by_id, storage_find_node_by_filters,
}
use llp_base.Reads.{Reads, faulted, pure-Reads, then-Keeps, if-Keeps, option-Keeps, defined-Reads}
use llp_base.Reads.Files.{
  seek_set-Reads, read_tree_schema-Reads, read_node-Reads, read_string_from_node-Reads,
}

pub root_at-Reads : (schema : TreeSchema) (i : ℕ) → Reads (root_at schema i)
root_at-Reads schema i w = defined-Reads (get_elem? schema.root i) w

pub data_at-Reads : (node : KeyNode) (i : ℕ) → Reads (data_at node i)
data_at-Reads node i w = defined-Reads (get_elem? (words_from_le node.contents) i) w

pub get_types-Reads : Reads get_types
unfolding get_types
get_types-Reads w =
    then-Keeps (seek_set-Reads 0 w)
      (λ _ w. then-Keeps (read_tree_schema-Reads w) (λ p w. pure-Reads _ w))

conv_i_to_o-Reads : (id : ℕ) → Reads (conv_i_to_o id)
unfolding conv_i_to_o
conv_i_to_o-Reads id w = then-Keeps (seek_set-Reads 0 w) (λ _ w.
    then-Keeps (read_tree_schema-Reads w)
      (λ p w. then-Keeps (defined-Reads _ w) (λ slot w. pure-Reads _ w)))

pub as_word-Reads : (v : FieldValue) → Reads (as_word v)
as_word-Reads (word n) w = pure-Reads n w
as_word-Reads (chars cs) w = faulted

pub as_chars-Reads : (v : FieldValue) → Reads (as_chars v)
as_chars-Reads (word n) w = faulted
as_chars-Reads (chars cs) w = pure-Reads cs w

load_values-Reads :
    (fuel size : ℕ) (node : KeyNode) (types : List ℕ) (i : ℕ)
    → Reads (load_values fuel size node types i)
unfolding load_values load_value
load_values-Reads fuel size node [] i w = pure-Reads _ w
load_values-Reads fuel size node (type ∷ types) i w =
    then-Keeps (data_at-Reads node i w) (λ field w.
      then-Keeps
        (if-Keeps (type == string_type) _ _ w
          (then-Keeps (read_string_from_node-Reads fuel size field w) (λ cs w. pure-Reads _ w))
          (pure-Reads _ w))
        (λ value w.
          then-Keeps (load_values-Reads fuel size node types (i + 1) w) (λ rest w. pure-Reads _ w)))

pub get_node-Reads : (fuel id : ℕ) → Reads (get_node fuel id)
unfolding get_node
get_node-Reads fuel id w = then-Keeps (conv_i_to_o-Reads id w) (λ found w.
    option-Keeps found _ _ w (pure-Reads _ w) (λ offset. then-Keeps (get_types-Reads w) (λ p w.
      then-Keeps (seek_set-Reads _ w) (λ _ w. then-Keeps (read_node-Reads _ w) (λ q w.
        then-Keeps (load_values-Reads fuel p.1 q.1 p.0 0 w) (λ values w. pure-Reads _ w))))))

-- The loop of a search, with a test that only reads.
scan-Reads :
    (test : KeyNode → Io Bool) (schema : TreeSchema)
    → ((node : KeyNode) → Reads (test node))
    → (left i : ℕ) (set : ResultSet) → Reads (scan test schema left i set)
unfolding scan
scan-Reads test schema h zero i set w = pure-Reads _ w
scan-Reads test schema h (suc left) i set w = then-Keeps (root_at-Reads schema i w) (λ offset w.
    then-Keeps
      (if-Keeps (offset == 0) _ _ w (pure-Reads _ w) (
        then-Keeps (seek_set-Reads _ w) (λ _ w.
          then-Keeps (read_node-Reads _ w)
            (λ p w. then-Keeps (h p.1 w) (λ passes w. pure-Reads _ w)))))
      (λ set' w. scan-Reads test schema h left (i + 1) set' w))

pub find_by_parent-Reads : (parent : ℕ) (set : ResultSet) → Reads (find_by_parent parent set)
unfolding find_by_parent
find_by_parent-Reads parent set w = then-Keeps (read_tree_schema-Reads w) (λ p w.
    scan-Reads (λ node. pure (node.header.parent == parent)) p.1 (λ node w. pure-Reads _ w) _ 0 set
      w)

field_matches-Reads :
    (fuel size type field_number : ℕ) (condition : FieldValue) (node : KeyNode)
    → Reads (field_matches fuel size type field_number condition node)
unfolding field_matches
field_matches-Reads fuel size type field_number condition node w =
    then-Keeps (data_at-Reads node field_number w) (λ field w.
      if-Keeps (type == string_type) _ _ w
        (then-Keeps (read_string_from_node-Reads fuel size field w)
          (λ s w. then-Keeps (as_chars-Reads condition w) (λ cs w. defined-Reads _ w)))
        (then-Keeps (as_word-Reads condition w) (λ n w. pure-Reads _ w)))

pub find_by_field-Reads :
    (fuel field_number : ℕ) (condition : FieldValue) (set : ResultSet)
    → Reads (find_by_field fuel field_number condition set)
unfolding find_by_field
find_by_field-Reads fuel field_number condition set w = then-Keeps (get_types-Reads w) (λ p w.
    then-Keeps (defined-Reads _ w) (λ type w. then-Keeps (read_tree_schema-Reads w) (λ q w.
      scan-Reads (field_matches fuel p.1 type field_number condition) q.1
        (field_matches-Reads fuel p.1 type field_number condition) _ 0 set w)))

pub last_field-Reads :
    (key : List ℕ) (names : List (List ℕ)) (i : ℕ) (found : Option ℕ)
    → Reads (last_field key names i found)
unfolding last_field
last_field-Reads key [] i found w = pure-Reads _ w
last_field-Reads key (name ∷ names) i found w =
    then-Keeps (defined-Reads _ w) (λ same w. last_field-Reads key names (i + 1) _ w)

module _ (fuel : ℕ) (types : List ℕ) (size : ℕ) (names : List (List ℕ)) where
  comparator_fails-Reads :
      (node : KeyNode) (c : Comparator) → Reads (comparator_fails fuel types size names node c)
  unfolding comparator_fails
  comparator_fails-Reads node c w = then-Keeps (last_field-Reads _ names 0 none w) (λ found w.
      option-Keeps found _ _ w (pure-Reads _ w) (λ i.
        then-Keeps (defined-Reads (get_elem? types i) w) (λ type w.
          then-Keeps (data_at-Reads node i w) (λ field w.
            if-Keeps (type == string_type) _ _ w
              (then-Keeps (read_string_from_node-Reads fuel size field w) (λ s w.
                then-Keeps (defined-Reads (str_equal s (char_array c.kv.value_string)) w)
                  (λ same w. pure-Reads _ w)))
              (pure-Reads _ w)))))

  count_valid-Reads :
      (node : KeyNode) (cs : List Comparator) (valid : ℕ)
      → Reads (count_valid fuel types size names node cs valid)
  unfolding count_valid
  count_valid-Reads node [] valid w = pure-Reads _ w
  count_valid-Reads node (c ∷ cs) valid w =
      then-Keeps (comparator_fails-Reads node c w)
        (λ fails w. option-Keeps fails _ _ w (pure-Reads _ w) (λ f. count_valid-Reads node cs _ w))

  passes_filters-Reads :
      (node : KeyNode) (fs : List Filter) → Reads (passes_filters fuel types size names node fs)
  unfolding passes_filters
  passes_filters-Reads node [] w = pure-Reads _ w
  passes_filters-Reads node (f ∷ []) w =
      then-Keeps (count_valid-Reads node f.comp_list _ w)
        (λ valid w. option-Keeps valid _ _ w (pure-Reads _ w) (λ v. pure-Reads _ w))
  passes_filters-Reads node (f ∷ g ∷ fs) w =
      then-Keeps (count_valid-Reads node f.comp_list _ w) (λ valid w.
        option-Keeps valid _ _ w (pure-Reads _ w)
          (λ v. if-Keeps (v == 0) _ _ w (pure-Reads _ w) (passes_filters-Reads node (g ∷ fs) w)))

  scan_filters-Reads :
      (schema : TreeSchema) (fs : List Filter) (left i : ℕ) (set : ResultSet)
      → Reads (scan_filters fuel types size names schema fs left i set)
  unfolding scan_filters
  scan_filters-Reads schema fs zero i set w = pure-Reads _ w
  scan_filters-Reads schema fs (suc left) i set w =
      then-Keeps (root_at-Reads schema i w) (λ offset w.
        if-Keeps (offset == 0) _ _ w (scan_filters-Reads schema fs left (i + 1) set w) (
          then-Keeps (seek_set-Reads _ w) (λ _ w. then-Keeps (read_node-Reads _ w) (λ p w.
            then-Keeps (passes_filters-Reads p.1 fs w) (λ passes w.
              option-Keeps passes _ _ w (pure-Reads _ w)
                (λ q. scan_filters-Reads schema fs left (i + 1) _ w))))))

key_is-Reads : (c : Comparator) (key : List ℕ) → Reads (key_is c key)
unfolding key_is
key_is-Reads c key w = defined-Reads (str_equal (char_array c.kv.key) (c_string key)) w

pub storage_find_node_by_filters-Reads :
    (fuel : ℕ) (filters : List Filter) (set : ResultSet) (names : List (List ℕ))
    → Reads (storage_find_node_by_filters fuel filters set names)
unfolding storage_find_node_by_filters find_by_id
storage_find_node_by_filters-Reads fuel filters set names w = then-Keeps (get_types-Reads w) (λ p w.
    then-Keeps (read_tree_schema-Reads w) (λ q w.
      let by_filters =
        scan_filters-Reads fuel p.0 p.1 names q.1 filters q.1.meta.template_size 0 set in
      option-Keeps (single_comparator filters) _ _ w (by_filters w) (λ c.
        then-Keeps (key_is-Reads c (codes "parent") w) (λ parent w.
          then-Keeps (key_is-Reads c (codes "id") w) (λ id w.
            if-Keeps parent _ _ w
              (then-Keeps (find_by_parent-Reads c.kv.value_int set w) (λ set' w. pure-Reads _ w))
              (if-Keeps id _ _ w
                (then-Keeps (get_node-Reads fuel c.kv.value_int w) (λ _ w. faulted))
                (by_filters w)))))))
