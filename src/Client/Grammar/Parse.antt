-- ===== src/Client/Grammar/Parse.antt =====
-- analyzer/main.y: a parser of the grammar by recursive descent, for reference.
use llp_base.Common.{ℕ, zero, suc, Option, none, some, List, [], ◌∷◌, length}
use llp_base.Client.Build.{◌>>=◌}
use llp_base.Client.Lexer.{
  Token, storage, parent, or, lo_t, lo_eq_t, gr_t, gr_eq_t, no_eq, op_brace, cl_brace, op_c_brace,
  cl_c_brace, op_sq_brace, cl_sq_brace, colon, dollar, quote, comma, true_word, false_word, string,
}
use llp_base.Client.Syntax.{
  Value, name, bool, FilterPhrase, equal, compare_by, either, Filters, one, more, Setting,
  Statement, remove,
}

-- What was parsed, and the tokens behind it.
abbrev pub Parsed : Type 0 → Type 0
Parsed A = Option (A × List Token)

abbrev pub if_some {ℓ κ} : {A : Type ℓ} → {B : Type κ} → Option A → B → (A → B) → B
if_some none b f = b
if_some (some a) b f = f a

unfoldable pub parse_value : List Token → Parsed Value
parse_value (quote ∷ string s ∷ quote ∷ ts) = some (name s, ts)
parse_value (Token.int n ∷ ts) = some (Value.int n, ts)
parse_value (Token.float r ∷ ts) = some (Value.float r, ts)
parse_value (true_word ∷ ts) = some (bool 1, ts)
parse_value (false_word ∷ ts) = some (bool 0, ts)
parse_value _ = none

unfoldable pub parse_comp : Token → Option ℕ
parse_comp lo_t = some 1
parse_comp lo_eq_t = some 2
parse_comp gr_t = some 3
parse_comp gr_eq_t = some 4
parse_comp no_eq = some 5
parse_comp _ = none

unfoldable pub expect_comma : List Token → Option (List Token)
expect_comma (comma ∷ ts) = some ts
expect_comma _ = none

unfoldable pub expect_bracket : List Token → Option (List Token)
expect_bracket (cl_sq_brace ∷ ts) = some ts
expect_bracket _ = none

unfoldable pub expect_brace : List Token → Option (List Token)
expect_brace (cl_c_brace ∷ ts) = some ts
expect_brace _ = none

-- The value of a key, or its comparison.
unfoldable pub parse_condition : List ℕ → List Token → Parsed FilterPhrase
unfolding parse_value parse_comp expect_brace
parse_condition key (op_c_brace ∷ dollar ∷ t ∷ colon ∷ ts) = do
  comp ← parse_comp t
  (v, ts1) ← parse_value ts
  ts2 ← expect_brace ts1
  some (compare_by key comp v, ts2)
parse_condition key ts = do (v, ts1) ← parse_value ts; some (equal key v, ts1)

unfoldable pub parse_filter : ℕ → List Token → Parsed FilterPhrase
unfolding parse_condition expect_comma expect_bracket
parse_filter zero ts = none
parse_filter (suc fuel) (string key ∷ colon ∷ ts) = parse_condition key ts
parse_filter (suc fuel) (dollar ∷ or ∷ op_sq_brace ∷ ts) = do
  (f, ts1) ← parse_filter fuel ts
  ts2 ← expect_comma ts1
  (g, ts3) ← parse_filter fuel ts2
  ts4 ← expect_bracket ts3
  some (either f g, ts4)
parse_filter (suc fuel) _ = none

-- Behind a filter: the next one behind a comma, or the brace that ends the list.
unfoldable pub parse_filters : ℕ → List Token → Parsed Filters
unfolding parse_filter
parse_filters zero ts = none
parse_filters (suc fuel) ts = do
  (f, ts1) ← parse_filter fuel ts
  if_some (expect_comma ts1) (some (one f, ts1))
      (λ ts2. do (fs, ts3) ← parse_filters fuel ts2; some (more f fs, ts3))

unfoldable pub parse_settings : ℕ → List Token → Parsed (List Setting)
unfolding parse_value expect_comma
parse_settings zero ts = none
parse_settings (suc fuel) (string key ∷ colon ∷ ts) = do
  (v, ts1) ← parse_value ts
  if_some (expect_comma ts1) (some ((key, v) ∷ [], ts1))
      (λ ts2. do (ss, ts3) ← parse_settings fuel ts2; some ((key, v) ∷ ss, ts3))
parse_settings (suc fuel) _ = none

unfoldable pub parse_vals : ℕ → List Token → Parsed (List Setting)
unfolding parse_settings expect_brace
parse_vals fuel (op_c_brace ∷ ts) = do
  (ss, ts1) ← parse_settings fuel ts
  ts2 ← expect_brace ts1
  some (ss, ts2)
parse_vals fuel _ = none

unfoldable pub expect_close : List Token → Option (List Token)
expect_close (cl_c_brace ∷ cl_brace ∷ ts) = some ts
expect_close _ = none

unfoldable pub expect_set : List Token → Option (List Token)
expect_set (cl_c_brace ∷ comma ∷ dollar ∷ Token.set ∷ colon ∷ ts) = some ts
expect_set _ = none

unfoldable pub expect_paren : List Token → Option (List Token)
expect_paren (cl_brace ∷ ts) = some ts
expect_paren _ = none

unfoldable pub parse_insert : ℕ → List Token → Parsed Statement
unfolding parse_vals expect_brace
parse_insert fuel (op_c_brace ∷ parent ∷ colon ∷ Token.int id ∷ cl_c_brace ∷ comma ∷ ts) = do
  (ss, ts1) ← parse_vals fuel ts
  ts2 ← expect_brace ts1
  some (Statement.insert id ss, ts2)
parse_insert fuel _ = none

unfoldable pub parse_update : ℕ → List Token → Parsed Statement
unfolding parse_filters parse_vals expect_set expect_paren
parse_update fuel ts = do
  (fs, ts1) ← parse_filters fuel ts
  ts2 ← expect_set ts1
  (ss, ts3) ← parse_vals fuel ts2
  ts4 ← expect_paren ts3
  some (Statement.update fs ss, ts4)

-- `storage.receive` and `storage.delete`.
unfoldable pub parse_search : (Filters → Statement) → ℕ → List Token → Parsed Statement
unfolding parse_filters expect_close
parse_search statement fuel ts = do
  (fs, ts1) ← parse_filters fuel ts
  ts2 ← expect_close ts1
  some (statement fs, ts2)

unfoldable pub parse_statement : ℕ → List Token → Parsed Statement
unfolding parse_search parse_insert parse_update
parse_statement fuel (storage ∷ Token.receive ∷ op_brace ∷ op_c_brace ∷ ts) =
    parse_search Statement.receive fuel ts
parse_statement fuel (storage ∷ Token.delete ∷ op_brace ∷ op_c_brace ∷ ts) =
    parse_search remove fuel ts
parse_statement fuel (storage ∷ Token.insert ∷ op_brace ∷ ts) = parse_insert fuel ts
parse_statement fuel (storage ∷ Token.update ∷ op_brace ∷ op_c_brace ∷ ts) = parse_update fuel ts
parse_statement fuel _ = none

-- Commands up to the end of the tokens.
unfoldable pub parse_commands : ℕ → List Token → Option (List Statement)
unfolding parse_statement
parse_commands fuel [] = some []
parse_commands zero (t ∷ ts) = none
parse_commands (suc fuel) (t ∷ ts) = do
  (st, ts1) ← parse_statement fuel (t ∷ ts)
  sts ← parse_commands fuel ts1
  some (st ∷ sts)

abbrev pub parse_syntax : List Token → Option (List Statement)
parse_syntax ts = parse_commands (length ts) ts
