-- ===== src/Tests/Serving.antt =====
-- Witnesses of the theorems about queries, text files and what a user types.
use mathlib.Core.Option.{none-ne-some}
use llp_base.Common.{
  ℕ, ◌^◌, ◌%◌, ◌<◌, ◌≡◌, ◌≢◌, ◌∙◌, ◌⊎◌, refl, sym, ap, some, none, true, List, [], ◌∷◌, ◌++◌,
  length, replicate, arith, codes, append-nil, words_to_le, to_le, ◌≤◌,
}
use llp_base.OsFile.{World, ok}
use llp_base.Schema.Sizes.{real_node_size}
use llp_base.DataFile.{attribute_name_room, meta_bytes, attr_head_bytes}
use llp_base.DataFile.Bytes.{schema_bytes, attrs_bytes, attr_bytes}
use llp_base.Inner.{word, str_equal}
use llp_base.Initializer.{real_size}
use llp_base.Initializer.Template.{new_tree}
use llp_base.Text.{c_string, is_numeric}
use llp_base.Format.{decimal}
use llp_base.Format.Decimal.{strtol-decimal}
use llp_base.Commands.{strtol, parse_file}
use llp_base.Message.{KeyValuePair, ValueSetting, Query}
use llp_base.Handler.{handle_query, insert_text, parent_of}
use llp_base.Handler.Insertion.{Inserted, IsUnset, stored_names, handle_query-Inserted}
use llp_base.Interactive.{init_file, name_size}
use llp_base.Interactive.Answers.{
  AreAnswers, answers, names_of, types_of_answers, sizes_of, init_file-IsStore,
}
use llp_base.Interactive.Words.{typed}
use llp_base.Public.{
  ErrCode, ok_code, FieldArray, fill_fields, convert, put_field, first_field, all_set,
}
use llp_base.Public.Typed.{AreDecoded, AreTyped, fill_fields-AreTyped}
use llp_base.Server.Loop.{serve_query}
use llp_base.Server.Serving.{Answers, serve_query-insertion}
use llp_base.Store.Slots.{IsStore}
use llp_base.Store.Lookup.{behind_schema}
use llp_base.Store.Tree.{TreeNode, Holds}
use llp_base.Ends.{IsOver}
use llp_base.Ends.Parse.{parse_file-Ends}
use llp_base.Tests.Data.{usable, fresh, key_attribute, empty_tree, empty_world, empty-IsStore}

strtol-decimal_example :
    (strtol (decimal 1905) ≡ 1905) × (is_numeric (c_string (decimal 1905)) ≡ some true)
strtol-decimal_example = strtol-decimal 1905 (omega arith)

pub empty_tree_small : length (schema_bytes empty_tree) ≤ 2 ^ 60
unfolding schema_bytes meta_bytes words_to_le to_le attrs_bytes attr_bytes attr_head_bytes
empty_tree_small = omega arith

-- A file with one attribute, "key", and no nodes.
abbrev pub empty-Holds : Holds empty_world (0 ∷ []) []
empty-Holds = record {
  tree = empty_tree;
  area = [];
  store = empty-IsStore;
  typed = refl;
  no_strings = (refl, tt);
  count = refl;
  filled = omega (arith, ap length (append-nil (schema_bytes empty_tree)));
  size = empty_tree_small;
  placed = λ id n e. absurd (none-ne-some n e);
}

abbrev key_pair : ℕ → KeyValuePair
key_pair n = record {
  key = codes "key";
  value_type = 1;
  value_int = n;
  value_real = 0;
  value_string = [];
}

abbrev settings : List ValueSetting
settings = record { kv = key_pair 7 } ∷ []

abbrev insertion : Query
insertion = record {
  command = 2;
  filters_list =
      record {
        comp_list =
            record { operation = 0; kv = record (key_pair 0) { key = codes "parent" } } ∷ [];
      }
      ∷ [];
  settings_list = settings;
}

abbrev pub to_double : ℕ → ℕ
to_double n = n % 2 ^ 64

pub to_double-lt : (n : ℕ) → to_double n < 2 ^ 64
to_double-lt n = omega arith

settings-AreDecoded : AreDecoded settings
settings-AreDecoded = (record { key_fits = omega arith; int_word = omega arith }, tt)

fill_fields-AreTyped_example :
    (fields' : FieldArray) × (code : ErrCode) × (fill_fields to_double
        (0 ∷ [])
        (key_attribute.attribute_name ∷ [])
        settings
        (none ∷ [])
        empty_world
      ≡ ok (fields', code) empty_world)
    × AreTyped (0 ∷ []) fields'
fill_fields-AreTyped_example =
    fill_fields-AreTyped to_double to_double-lt (0 ∷ []) (key_attribute.attribute_name ∷ [])
      settings (none ∷ []) empty_world refl (tt, tt) settings-AreDecoded (tt, tt)

-- The fields are filled with the number, so that none is unset.
settings_set :
    IsUnset to_double
      (0 ∷ [])
      (stored_names empty-Holds)
      settings
      (behind_schema empty_world empty_tree)
    → ⊥
unfolding fill_fields convert put_field first_field all_set str_equal
settings_set (fields, filled, unset, _) =
    let same : some (word 7) ∷ [] ≡ fields = cc filled in
    none-ne-some (word 7 ∷ []) (sym unset ∙ sym (ap all_set same))

handle_query-Inserted_example :
    Inserted empty_world
      (0 ∷ [])
      []
      0
      insert_text
      (IsUnset to_double
        (0 ∷ [])
        (stored_names empty-Holds)
        settings
        (behind_schema empty_world empty_tree))
      (handle_query to_double decimal 1 [] fresh insertion empty_world)
unfolding real_node_size parent_of
handle_query-Inserted_example =
    handle_query-Inserted empty-Holds to_double decimal 1 [] fresh insertion refl to_double-lt
      (tt, tt) settings-AreDecoded refl (omega arith) (omega arith)

serve_query-insertion_example :
    ((n : TreeNode) × (w' : World) × (n.parent ≡ 0)
      × Answers
          (serve_query to_double decimal 1 [] fresh insertion empty_world)
          (insert_text ok_code)
          w'
      × Holds w' (0 ∷ []) ([] ++ n ∷ []))
    ⊎ ((code : ErrCode) × (p : ℕ) × (code ≢ ok_code)
        × Answers
            (serve_query to_double decimal 1 [] fresh insertion empty_world)
            (insert_text code)
            (record empty_world { pos = p }))
unfolding real_node_size parent_of
serve_query-insertion_example =
    serve_query-insertion to_double decimal 1 [] fresh empty-Holds insertion refl to_double-lt
      (tt, tt) settings-AreDecoded refl (omega arith) (omega arith) settings_set

parse_file-Ends_example :
    IsOver (parse_file (λ _. 0) [] (λ _. fresh) (codes "0 key=7\n0 key=9\n") empty_world)
parse_file-Ends_example =
    parse_file-Ends (λ _. 0) [] (λ _. fresh) (codes "0 key=7\n0 key=9\n") empty_world

abbrev filled_blocks : ℕ → List ℕ
filled_blocks n = replicate n 170

-- "key", an INT, and "on", a BOOL.
abbrev two_attributes : List (List ℕ × ℕ)
two_attributes = (codes "key", 0) ∷ (codes "on", 3) ∷ []

abbrev no_file : World
no_file = record { bytes = []; pos = 0; usable = usable }

two-AreAnswers : AreAnswers usable filled_blocks two_attributes
unfolding name_size real_size attribute_name_room
two-AreAnswers = (
  record {
    word = (refl, (refl, (refl, tt)));
    fits = omega arith;
    short = omega arith;
    digit_type = omega arith;
    block = refl;
    room = omega arith;
  },
  (
    record {
      word = (refl, (refl, tt));
      fits = omega arith;
      short = omega arith;
      digit_type = omega arith;
      block = refl;
      room = omega arith;
    },
    tt,
  ),
)

init_file-IsStore_example :
    (w' : World) × (init_file filled_blocks
        (decimal 2 ++ typed (answers two_attributes) (codes "exit\n"))
        no_file
      ≡ ok (10 ∷ codes "exit\n") w')
    × IsStore w'.usable w'.bytes
        (new_tree filled_blocks
          (names_of two_attributes)
          (types_of_answers two_attributes)
          (sizes_of two_attributes))
        []
init_file-IsStore_example =
    init_file-IsStore filled_blocks no_file two_attributes (codes "exit\n") refl (omega arith)
      (omega arith) two-AreAnswers
