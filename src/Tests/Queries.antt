-- ===== src/Tests/Queries.antt =====
-- Witnesses of the theorems about texts and messages, and some runs.
use llp_base.Common.{ℕ, ◌≡◌, refl, some, true, List, [], ◌∷◌, arith, words_from_le}
use llp_base.OsFile.{World, ok}
use llp_base.Schema.{KeyNode}
use llp_base.Message.{KeyValuePair, ValueSetting, Comparator, Filter, Response}
use llp_base.Text.{c_string, split, is_numeric}
use llp_base.Text.Split.{join, split-join}
use llp_base.Server.{send_response, receive_response}
use llp_base.Server.Chunks.{AreChunks, receive-send}
use llp_base.Client.{
  Builder, ◌>>=◌, int, name, equal, compare_by, either, Filters, one, more, Setting, update,
  run_statement, reset, parse_query, wire_filters, wire_settings, semantic, int_part, real_part,
  conditions,
}
use llp_base.Client.Commands.{parse_query-update}
use llp_base.Inner.{str_equal}
use llp_base.Public.{comparator_fails, passes_filters}
use llp_base.Public.Matching.{all_hold, passes_filters-all_hold}

-- "add 0 k=1", with a space for the delimiter.
split-join_example :
    split (c_string (join 32 ((97 ∷ 100 ∷ 100 ∷ []) ∷ (48 ∷ []) ∷ []))) 32 (0 ∷ [])
    ≡ some (2, (97 ∷ 100 ∷ 100 ∷ []) ∷ (48 ∷ []) ∷ [])
split-join_example = split-join 32 (97 ∷ 100 ∷ 100 ∷ []) ((48 ∷ []) ∷ []) [] (omega arith) refl (
  ((omega arith), refl, refl, ((omega arith), refl, refl, ((omega arith), refl, refl, tt))),
  (((omega arith), refl, refl, tt), tt),
)

receive-send_example :
    (rs : List Response) × (send_response 4 (72 ∷ 105 ∷ []) ≡ some rs)
    × AreChunks rs
    × (receive_response rs ≡ some (72 ∷ 105 ∷ []))
receive-send_example = receive-send 4 (72 ∷ 105 ∷ []) (omega arith)

abbrev key : List ℕ
key = 107 ∷ []

abbrev new_builder : Builder
new_builder = record { command = 0; filters = []; settings = []; cmp = []; vtype = 0 }

-- {k: 1, $or [k: {$lo_t: 5}, k: "k"]}, {k: 2, k: 3}
abbrev phrases : Filters
phrases = more (equal key (int 1)) (one (either (compare_by key 1 (int 5)) (equal key (name key))))

abbrev settings : List Setting
settings = (key, int 2) ∷ (key, int 3) ∷ []

abbrev int_pair : ℕ → KeyValuePair
int_pair n = record { key = key; value_type = 1; value_int = n; value_real = 0; value_string = [] }

abbrev name_pair : KeyValuePair
name_pair = record { key = key; value_type = 0; value_int = 0; value_real = 0; value_string = key }

abbrev sent_filters : List Filter
sent_filters =
    record { comp_list = record { operation = 0; kv = int_pair 1 } ∷ [] }
    ∷ record {
      comp_list =
          record { operation = 0; kv = name_pair } ∷ record { operation = 1; kv = int_pair 5 } ∷ [];
    }
    ∷ []

abbrev sent_settings : List ValueSetting
sent_settings = record { kv = int_pair 3 } ∷ record { kv = int_pair 2 } ∷ []

parse_query-update_example :
    (run_statement (update phrases settings) (reset new_builder) >>= parse_query)
    ≡ some (record { command = 3; filters_list = sent_filters; settings_list = sent_settings })
unfolding conditions semantic int_part real_part wire_filters wire_settings
parse_query-update_example =
    parse_query-update new_builder phrases settings sent_filters sent_settings refl refl
      (omega arith) (omega arith)

abbrev some_world : World
some_world = record { bytes = []; pos = 0; usable = λ n. n }

abbrev three_node : KeyNode
three_node = record {
  header = record { parent = 0; alloc = 0 };
  contents = 3 ∷ 0 ∷ 0 ∷ 0 ∷ 0 ∷ 0 ∷ 0 ∷ 0 ∷ [];
}

abbrev less_than_five : Comparator
less_than_five = record { operation = 1; kv = int_pair 5 }

passes_filters-all_hold_example :
    passes_filters 1
      (0 ∷ [])
      1
      ((107 ∷ 0 ∷ []) ∷ [])
      three_node
      (record { comp_list = less_than_five ∷ [] } ∷ [])
      some_world
    ≡ ok (some (all_hold (λ _. true) (record { comp_list = less_than_five ∷ [] } ∷ []))) some_world
unfolding comparator_fails words_from_le str_equal
passes_filters-all_hold_example =
    passes_filters-all_hold (λ _. true) 1 (0 ∷ []) 1 ((107 ∷ 0 ∷ []) ∷ []) three_node some_world
      (record { comp_list = less_than_five ∷ [] }) [] (omega arith, (refl, tt), tt)

numeric_with_return : is_numeric (49 ∷ 13 ∷ 120 ∷ 0 ∷ []) ≡ some true
unfolding is_numeric
numeric_with_return = refl
