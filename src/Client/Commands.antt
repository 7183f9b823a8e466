-- ===== src/Client/Commands.antt =====
-- What a command becomes: its filters in their order, of each `$or` the last condition of both sides,
-- and its settings from the last to the first.
use mathlib.Core.List.{reverse_aux}
use llp_base.Common.{
  ℕ, ◌≤◌, ◌≡◌, refl, Option, none, some, List, [], ◌∷◌, ◌++◌, map, append-nil, length, le→ltb-false,
}
use llp_base.Message.{ValueSetting, Filter}
use llp_base.Client.Build.{
  ◌>>=◌, KeyValue, Condition, Builder, string_value, int_value, float_value, reset, set_cur_oper,
  set_cur_val, add_val_setting, push_filter, conditions, switch_filter, set_comp, set_command,
}
use llp_base.Client.Syntax.{
  Value, name, int, float, bool, FilterPhrase, equal, compare_by, either, Filters, one, more,
  Setting, update, set_vtype, semantic, int_part, real_part, run_filter, run_filters, run_settings,
  run_statement,
}
use llp_base.Client.Wire.{wire_filters, wire_settings, parse_query}

-- The type that the value of a phrase is sent with.
abbrev pub type_of : Value → ℕ
type_of (name s) = string_value
type_of (int n) = int_value
type_of (float r) = float_value
type_of (bool n) = int_value

-- The condition that a filter leaves on top of the stack: of an `$or`, that of the second side.
abbrev pub last_condition : FilterPhrase → Condition
last_condition (equal key v) = record {
  operation = 0;
  kv = record {
    key = key;
    value_type = type_of v;
    value_int = int_part v;
    value_real = real_part v;
  };
}
last_condition (compare_by key comp v) = record {
  operation = comp;
  kv = record { key = key; value_type = type_of v; value_int = semantic v; value_real = 0 };
}
last_condition (either f g) = last_condition g

abbrev pub other_side : FilterPhrase → Option Condition
other_side (either f g) = some (last_condition f)
other_side (equal key v) = none
other_side (compare_by key comp v) = none

-- The conditions that a filter is sent with.
abbrev pub conditions_of : FilterPhrase → List Condition
conditions_of f = conditions (record { condition = last_condition f; connected = other_side f })

abbrev pub filters_of : Filters → List (List Condition)
filters_of (one f) = conditions_of f ∷ []
filters_of (more f fs) = conditions_of f ∷ filters_of fs

abbrev pub last_type : FilterPhrase → ℕ
last_type (equal key v) = type_of v
last_type (compare_by key comp v) = type_of v
last_type (either f g) = last_type g

abbrev pub final_type : Filters → ℕ
final_type (one f) = last_type f
final_type (more f fs) = final_type fs

abbrev pub tail : List (List Condition) → List (List Condition)
tail [] = []
tail (f ∷ fs) = fs

set_vtype-type_of : (v : Value) (b : Builder) → set_vtype v b ≡ record b { vtype = type_of v }
unfolding set_vtype
set_vtype-type_of (name s) b = refl
set_vtype-type_of (int n) b = refl
set_vtype-type_of (float r) b = refl
set_vtype-type_of (bool n) b = refl

-- A filter puts one comparator on the stack, however its `$or`s are nested.
run_filter-top :
    (f : FilterPhrase) (b : Builder)
    → run_filter f b
      ≡ some (record b {
        cmp = record { condition = last_condition f; connected = other_side f } ∷ b.cmp;
        vtype = last_type f;
      })
unfolding run_filter set_cur_val set_cur_oper set_comp
run_filter-top (equal key v) b = rw (set_vtype-type_of v b)
run_filter-top (compare_by key comp v) b = rw (set_vtype-type_of v b)
run_filter-top (either f g) b = rw (
  run_filter-top f b,
  run_filter-top g (record b {
    cmp = record { condition = last_condition f; connected = other_side f } ∷ b.cmp;
    vtype = last_type f;
  }),
)

push_filter-tail :
    (cs : List Condition) (fs : List (List Condition)) → push_filter cs fs ≡ [] ∷ cs ∷ tail fs
unfolding push_filter
push_filter-tail cs [] = refl
push_filter-tail cs (f ∷ fs) = refl

-- The filters are put in front of those before, in their order, and the stack is as it was.
pub run_filters-front :
    (fs : Filters) (b : Builder)
    → run_filters fs b
      ≡ some (record b { filters = [] ∷ (filters_of fs ++ tail b.filters); vtype = final_type fs })
unfolding run_filters switch_filter
run_filters-front (one f) b = rw (run_filter-top f b, push_filter-tail)
run_filters-front (more f fs) b = rw (
  run_filter-top f b,
  run_filters-front fs (record b {
    cmp = record { condition = last_condition f; connected = other_side f } ∷ b.cmp;
    vtype = last_type f;
  }),
)

abbrev pub setting_kv : Setting → KeyValue
setting_kv (key, v) = record {
  key = key;
  value_type = type_of v;
  value_int = int_part v;
  value_real = real_part v;
}

pub run_settings-reverse :
    (ss : List Setting) (b : Builder)
    → (t : ℕ) × (run_settings ss b
        ≡ record b { settings = reverse_aux (map setting_kv ss) b.settings; vtype = t })
unfolding run_settings add_val_setting
run_settings-reverse [] b = (b.vtype, refl)
run_settings-reverse ((key, v) ∷ ss) b =
    let b' : Builder = record b {
      settings = setting_kv (key, v) ∷ b.settings;
      vtype = type_of v;
    } in
    let (t, e) = run_settings-reverse ss b' in (t, rw (set_vtype-type_of v b) e)

pub parse_query-update :
    (b : Builder) (fs : Filters) (ss : List Setting) (filters : List Filter)
    (settings : List ValueSetting)
    → wire_filters (filters_of fs) ≡ some filters
    → wire_settings (reverse_aux (map setting_kv ss) []) ≡ some settings
    → length filters ≤ 20
    → length settings ≤ 20
    → (run_statement (update fs ss) (reset b) >>= parse_query)
      ≡ some (record { command = 3; filters_list = filters; settings_list = settings })
unfolding run_statement reset parse_query set_command
parse_query-update b fs ss filters settings hf hs lf ls =
    let b0 : Builder = record b { command = 0; filters = []; settings = [] } in
    let b1 : Builder = record b0 { filters = [] ∷ (filters_of fs ++ []); vtype = final_type fs } in
    let (t, e) = run_settings-reverse ss b1 in
    rw (
      run_filters-front fs b0,
      e,
      append-nil (filters_of fs),
      hf,
      hs,
      le→ltb-false 20 (length filters) lf,
      le→ltb-false 20 (length settings) ls,
    )
