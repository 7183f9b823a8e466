-- ===== src/Client/Build.antt =====
-- The structs of analyzer/include/query.h, and the functions that the actions call.
use llp_base.Common.{ℕ, Option, none, some, List, [], ◌∷◌}

infixl 5 ◌>>=◌
abbrev pub ◌>>=◌ : {A B : Type 0} → Option A → (A → Option B) → Option B
none >>= f = none
some a >>= f = f a

-- `valueInt`: a number, or a `char*`.
pub data IntValue : Type 0 where
  number : ℕ → IntValue
  text : List ℕ → IntValue

-- `struct keyValuePair`; `value_real` is the bits of a `float`.
pub record KeyValue : Type 0 where
  pub key : List ℕ
  pub value_type : ℕ
  pub value_int : IntValue
  pub value_real : ℕ

-- `struct comparator` without its link.
pub record Condition : Type 0 where
  pub operation : ℕ
  pub kv : KeyValue

-- `struct fullComparator`: `connected` is null, or holds one more condition.
pub record FullComparator : Type 0 where
  pub condition : Condition
  pub connected : Option Condition

-- The globals `query`, `cmp` and `vtype`. A filter is its `compList`, empty for null; the stack of
-- comparators follows their `next`.
pub record Builder : Type 0 where
  pub command : ℕ
  pub filters : List (List Condition)
  pub settings : List KeyValue
  pub cmp : List FullComparator
  pub vtype : ℕ

-- STRING_TYPE, INT_TYPE and FLOAT_TYPE of query.h.
abbrev pub string_value : ℕ
string_value = 0

abbrev pub int_value : ℕ
int_value = 1

abbrev pub float_value : ℕ
float_value = 2

abbrev pub unset : KeyValue
unset = record { key = []; value_type = 0; value_int = number 0; value_real = 0 }

-- `query = emptyQuery`: the stack and `vtype` stay.
unfoldable pub reset : Builder → Builder
reset b = record b { command = 0; filters = []; settings = [] }

unfoldable pub set_cur_oper : ℕ → Builder → Builder
set_cur_oper operation b = record b {
  cmp =
      record { condition = record { operation = operation; kv = unset }; connected = none } ∷ b.cmp;
}

set_top : KeyValue → List FullComparator → Option (List FullComparator)
set_top kv [] = none
set_top kv (c ∷ rest) =
    some (record c { condition = record { operation = c.condition.operation; kv = kv } } ∷ rest)

-- `none` where `cmp` is null.
unfoldable pub set_cur_val : List ℕ → IntValue → ℕ → Builder → Option Builder
unfolding set_top
set_cur_val key val_int val_real b = do
  cmp ←
      set_top
        (record { key = key; value_type = b.vtype; value_int = val_int; value_real = val_real })
        b.cmp
  some (record b { cmp = cmp })

unfoldable pub add_val_setting : List ℕ → IntValue → ℕ → Builder → Builder
add_val_setting key val_int val_real b = record b {
  settings =
      record { key = key; value_type = b.vtype; value_int = val_int; value_real = val_real }
      ∷ b.settings;
}

unfoldable pub conditions : FullComparator → List Condition
conditions c = c.condition ∷ elim c.connected [ none ↦ [] | some d ↦ d ∷ [] ]

-- The new conditions go to the filter in front, which is empty; an empty one is put before it.
unfoldable pub push_filter : List Condition → List (List Condition) → List (List Condition)
push_filter tmp [] = [] ∷ tmp ∷ []
push_filter tmp (f ∷ fs) = [] ∷ tmp ∷ fs

unfoldable pub switch_filter : Builder → Option Builder
unfolding conditions push_filter
switch_filter b = go b.cmp
  where
    go : List FullComparator → Option Builder
    go [] = none
    go (c ∷ rest) = some (record b { filters = push_filter (conditions c) b.filters; cmp = rest })

unfoldable pub connect : List FullComparator → Option (List FullComparator)
connect [] = none
connect (c ∷ []) = none
connect (c ∷ d ∷ rest) = some (record c { connected = some d.condition } ∷ rest)

unfoldable pub set_comp : Builder → Option Builder
unfolding connect
set_comp b = do cmp ← connect b.cmp; some (record b { cmp = cmp })

unfoldable pub set_command : ℕ → Builder → Builder
set_command command b = record b { command = command }
