-- ===== src/Client/Syntax.antt =====
-- The grammar's phrases, and the actions in the order in which bison makes them.
use llp_base.Common.{ℕ, Option, some, List, [], ◌∷◌}
use llp_base.Client.Build.{
  ◌>>=◌, IntValue, number, text, Builder, string_value, int_value, float_value, set_cur_oper,
  set_cur_val, add_val_setting, switch_filter, set_comp, set_command,
}

-- A value: a quoted name, an integer, the bits of a float, or a Boolean.
pub data Value : Type 0 where
  name : List ℕ → Value
  int : ℕ → Value
  float : ℕ → Value
  bool : ℕ → Value

-- A filter: `key: value`, `key: {$comp: value}`, or `$or [filter, filter]`.
pub data FilterPhrase : Type 0 where
  equal : List ℕ → Value → FilterPhrase
  compare_by : List ℕ → ℕ → Value → FilterPhrase
  either : FilterPhrase → FilterPhrase → FilterPhrase

-- A nonempty list separated by commas.
pub data Filters : Type 0 where
  one : FilterPhrase → Filters
  more : FilterPhrase → Filters → Filters

abbrev pub Setting : Type 0
Setting = List ℕ × Value

pub data Statement : Type 0 where
  receive : Filters → Statement
  remove : Filters → Statement
  insert : ℕ → List Setting → Statement
  update : Filters → List Setting → Statement

-- The action of `value`: `vtype`.
unfoldable pub set_vtype : Value → Builder → Builder
set_vtype (name s) b = record b { vtype = string_value }
set_vtype (int n) b = record b { vtype = int_value }
set_vtype (float r) b = record b { vtype = float_value }
set_vtype (bool n) b = record b { vtype = int_value }

-- `$$` of `value`; a float goes there by its bits.
unfoldable pub semantic : Value → IntValue
semantic (name s) = text s
semantic (int n) = number n
semantic (float r) = number r
semantic (bool n) = number n

-- What `filter` and `set_val` hand on: a float apart from the other values.
unfoldable pub int_part : Value → IntValue
int_part (name s) = text s
int_part (int n) = number n
int_part (float r) = number 0
int_part (bool n) = number n

unfoldable pub real_part : Value → ℕ
real_part (name s) = 0
real_part (int n) = 0
real_part (float r) = r
real_part (bool n) = 0

unfoldable pub run_filter : FilterPhrase → Builder → Option Builder
unfolding set_vtype semantic int_part real_part
run_filter (equal key value) b =
    set_cur_val key (int_part value) (real_part value) (set_cur_oper 0 (set_vtype value b))
run_filter (compare_by key comp value) b =
    set_cur_val key (semantic value) 0 (set_cur_oper comp (set_vtype value b))
run_filter (either f g) b = do b' ← run_filter f b; b'' ← run_filter g b'; set_comp b''

unfoldable pub run_filters : Filters → Builder → Option Builder
run_filters (one f) b = do b' ← run_filter f b; switch_filter b'
run_filters (more f fs) b = do b' ← run_filter f b; b'' ← run_filters fs b'; switch_filter b''

unfoldable pub run_settings : List Setting → Builder → Builder
run_settings [] b = b
run_settings ((key, value) ∷ settings) b =
    run_settings settings
      (add_val_setting key (int_part value) (real_part value) (set_vtype value b))

-- The characters of `parent`.
abbrev pub parent_key : List ℕ
parent_key = b'p' ∷ b'a' ∷ b'r' ∷ b'e' ∷ b'n' ∷ b't' ∷ []

unfoldable pub run_parent : ℕ → Builder → Option Builder
run_parent id b = do
  b' ← set_cur_val parent_key (number id) 0 (record (set_cur_oper 0 b) { vtype = int_value })
  switch_filter b'

unfoldable pub run_statement : Statement → Builder → Option Builder
run_statement (receive fs) b = do b' ← run_filters fs b; some (set_command 0 b')
run_statement (remove fs) b = do b' ← run_filters fs b; some (set_command 1 b')
run_statement (insert id settings) b = do
  b' ← run_parent id b
  some (set_command 2 (run_settings settings b'))
run_statement (update fs settings) b = do
  b' ← run_filters fs b
  some (set_command 3 (run_settings settings b'))
