-- ===== src/Client/Wire.antt =====
-- `parseQuery`: the message, or `none` where an array of the message overflows.
use llp_base.Common.{ℕ, Option, none, some, List, [], ◌∷◌, length, ltb, ◌==◌, ◌||◌, if◌then◌else◌}
use llp_base.Message.{KeyValuePair, ValueSetting, Comparator, Filter, Query, max_count, max_size}
use llp_base.Client.Build.{
  ◌>>=◌, IntValue, number, text, KeyValue, Condition, Builder, string_value,
}

-- The number that `kv.valueInt` gets of a `char*` is its address, which nothing reads; zero stands
-- for it.
unfoldable pub wire_int : IntValue → ℕ
wire_int (number n) = n
wire_int (text s) = 0

-- `strcpy` to a string field: of a `char*`, when the type says so; a number is no address.
unfoldable pub wire_string : ℕ → IntValue → Option (List ℕ)
wire_string type (text s) = if type == string_value then some s else some []
wire_string type (number n) = if type == string_value then none else some []

unfoldable pub wire_kv : KeyValue → Option KeyValuePair
unfolding wire_int wire_string
wire_kv kv = do
  s ← wire_string kv.value_type kv.value_int
  if ltb (length s) max_size
      then (if ltb (length kv.key) max_size
          then some (record {
            key = kv.key;
            value_type = kv.value_type;
            value_int = wire_int kv.value_int;
            value_real = kv.value_real;
            value_string = s;
          })
          else none)
      else none

unfoldable pub wire_conditions : List Condition → Option (List Comparator)
unfolding wire_kv
wire_conditions [] = some []
wire_conditions (c ∷ cs) = do
  kv ← wire_kv c.kv
  rest ← wire_conditions cs
  some (record { operation = c.operation; kv = kv } ∷ rest)

-- A filter without conditions is passed over.
unfoldable pub wire_filters : List (List Condition) → Option (List Filter)
unfolding wire_conditions
wire_filters [] = some []
wire_filters ([] ∷ fs) = wire_filters fs
wire_filters ((c ∷ cs) ∷ fs) = do
  conditions ← wire_conditions (c ∷ cs)
  rest ← wire_filters fs
  some (record { comp_list = conditions } ∷ rest)

unfoldable pub wire_settings : List KeyValue → Option (List ValueSetting)
unfolding wire_kv
wire_settings [] = some []
wire_settings (s ∷ settings) = do
  kv ← wire_kv s
  rest ← wire_settings settings
  some (record { kv = kv } ∷ rest)

-- No list of conditions is longer than two, so only the other arrays can overflow.
unfoldable pub parse_query : Builder → Option Query
unfolding wire_filters wire_settings
parse_query b = do
  filters ← wire_filters b.filters
  settings ← wire_settings b.settings
  if ltb max_count (length filters) || ltb max_count (length settings)
      then none
      else some (record { command = b.command; filters_list = filters; settings_list = settings })
