-- ===== src/Client/Grammar/RoundTrip.antt =====
-- analyzer/main.y: every command is parsed back from its tokens, so no two commands have the same.
use llp_base.Common.{
  ℕ, zero, suc, ◌<◌, ◌≤◌, ◌≡◌, refl, sym, ap, ◌∙◌, none, some, List, [], ◌∷◌, length, arith,
}
use llp_base.Client.Lexer.{Token, comma, dollar, colon, cl_c_brace, cl_sq_brace, cl_brace}
use llp_base.Client.Syntax.{
  Value, name, bool, FilterPhrase, equal, compare_by, either, Filters, one, more, Setting,
  Statement, remove,
}
use llp_base.Client.Grammar.{
  value_tokens, comp_token, filter_tokens, filters_tokens, set_vals_tokens, vals_def_tokens,
  statement_tokens, syntax_tokens, IsValue, IsFilter, AreFilters, AreSettings, IsStatement,
  AreStatements,
}
use llp_base.Client.Grammar.Parse.{
  parse_value, parse_comp, parse_condition, parse_filter, parse_filters, parse_settings, parse_vals,
  parse_insert, parse_update, parse_search, parse_statement, parse_commands, parse_syntax,
  expect_comma, expect_bracket, expect_brace, expect_close, expect_set, expect_paren,
}
use llp_base.Client.Grammar.Rounds.{
  filter_fuel, filters_fuel, statement_fuel, length-statement_tokens,
}

parse-value_tokens :
    (v : Value) (ts : List Token) → IsValue v → parse_value (value_tokens v ts) ≡ some (v, ts)
unfolding parse_value
parse-value_tokens (name s) ts h = refl
parse-value_tokens (Value.int n) ts h = refl
parse-value_tokens (Value.float r) ts h = refl
parse-value_tokens (bool zero) ts h = refl
parse-value_tokens (bool (suc zero)) ts h = refl
parse-value_tokens (bool (suc (suc n))) ts h = absurd (omega arith)

condition-value :
    (key : List ℕ) (v : Value) (ts : List Token)
    → IsValue v
    → parse_condition key (value_tokens v ts) ≡ some (equal key v, ts)
unfolding parse_condition parse_value
condition-value key (name s) ts h = refl
condition-value key (Value.int n) ts h = refl
condition-value key (Value.float r) ts h = refl
condition-value key (bool zero) ts h = refl
condition-value key (bool (suc zero)) ts h = refl
condition-value key (bool (suc (suc n))) ts h = absurd (omega arith)

parse_comp-comp_token : (comp : ℕ) → 0 < comp → comp < 6 → parse_comp (comp_token comp) ≡ some comp
unfolding parse_comp
parse_comp-comp_token zero h k = absurd (omega arith)
parse_comp-comp_token (suc zero) h k = refl
parse_comp-comp_token (suc (suc zero)) h k = refl
parse_comp-comp_token (suc (suc (suc zero))) h k = refl
parse_comp-comp_token (suc (suc (suc (suc zero)))) h k = refl
parse_comp-comp_token (suc (suc (suc (suc (suc zero))))) h k = refl
parse_comp-comp_token (suc (suc (suc (suc (suc (suc n)))))) h k = absurd (omega arith)

parse-filter_tokens :
    (f : FilterPhrase) (fuel : ℕ) (ts : List Token)
    → IsFilter f
    → filter_fuel f ≤ fuel
    → parse_filter fuel (filter_tokens f ts) ≡ some (f, ts)
unfolding parse_filter parse_condition expect_brace expect_comma expect_bracket
parse-filter_tokens (equal key v) zero ts h l = absurd (omega arith)
parse-filter_tokens (equal key v) (suc fuel) ts h l = condition-value key v ts h
parse-filter_tokens (compare_by key comp v) zero ts h l = absurd (omega arith)
parse-filter_tokens (compare_by key comp v) (suc fuel) ts (p, q, h) l =
    rw (parse_comp-comp_token comp p q, parse-value_tokens v (cl_c_brace ∷ ts) h) refl
parse-filter_tokens (either f g) zero ts h l = absurd (omega arith)
parse-filter_tokens (either f g) (suc fuel) ts (h, k) l =
    rw (parse-filter_tokens f fuel (comma ∷ filter_tokens g (cl_sq_brace ∷ ts)) h (omega arith))
      (rw (parse-filter_tokens g fuel (cl_sq_brace ∷ ts) k (omega arith)) refl)

parse-filters_tokens :
    (fs : Filters) (fuel : ℕ) (ts : List Token)
    → AreFilters fs
    → filters_fuel fs ≤ fuel
    → expect_comma ts ≡ none
    → parse_filters fuel (filters_tokens fs ts) ≡ some (fs, ts)
unfolding parse_filters
parse-filters_tokens (one f) zero ts h l e = absurd (omega arith)
parse-filters_tokens (one f) (suc fuel) ts h l e =
    rw (parse-filter_tokens f fuel ts h (omega arith)) (rw e refl)
parse-filters_tokens (more f fs) zero ts h l e = absurd (omega arith)
parse-filters_tokens (more f fs) (suc fuel) ts (h, k) l e =
    rw (parse-filter_tokens f fuel (comma ∷ filters_tokens fs ts) h (omega arith))
      (unfold expect_comma in rw (parse-filters_tokens fs fuel ts k (omega arith) e) refl)

parse-set_vals_tokens :
    (ss : List Setting) (fuel : ℕ) (ts : List Token)
    → AreSettings ss
    → length ss ≤ fuel
    → expect_comma ts ≡ none
    → parse_settings fuel (set_vals_tokens ss ts) ≡ some (ss, ts)
unfolding parse_settings
parse-set_vals_tokens [] fuel ts h l e = absurd h
parse-set_vals_tokens ((key, v) ∷ ss) zero ts h l e = absurd (omega arith)
parse-set_vals_tokens ((key, v) ∷ []) (suc fuel) ts h l e =
    rw (parse-value_tokens v ts h) (rw e refl)
parse-set_vals_tokens ((key, v) ∷ s ∷ ss) (suc fuel) ts (h, k) l e =
    rw (parse-value_tokens v (comma ∷ set_vals_tokens (s ∷ ss) ts) h)
      (unfold expect_comma in rw (parse-set_vals_tokens (s ∷ ss) fuel ts k (omega arith) e) refl)

parse-vals_def_tokens :
    (ss : List Setting) (fuel : ℕ) (ts : List Token)
    → AreSettings ss
    → length ss ≤ fuel
    → parse_vals fuel (vals_def_tokens ss ts) ≡ some (ss, ts)
unfolding parse_vals expect_brace
parse-vals_def_tokens ss fuel ts h l =
    rw (parse-set_vals_tokens ss fuel (cl_c_brace ∷ ts) h l (unfold expect_comma in refl)) refl

parse-statement_tokens :
    (st : Statement) (fuel : ℕ) (ts : List Token)
    → IsStatement st
    → statement_fuel st ≤ fuel
    → parse_statement fuel (statement_tokens st ts) ≡ some (st, ts)
unfolding parse_statement parse_search parse_insert parse_update expect_close expect_set
    expect_paren expect_brace
parse-statement_tokens (Statement.receive fs) fuel ts h l =
    rw (parse-filters_tokens fs fuel (cl_c_brace ∷ cl_brace ∷ ts) h l (unfold expect_comma in refl))
      refl
parse-statement_tokens (remove fs) fuel ts h l =
    rw (parse-filters_tokens fs fuel (cl_c_brace ∷ cl_brace ∷ ts) h l (unfold expect_comma in refl))
      refl
parse-statement_tokens (Statement.insert id ss) fuel ts h l =
    rw (parse-vals_def_tokens ss fuel (cl_c_brace ∷ ts) h l) refl
parse-statement_tokens (Statement.update fs ss) fuel ts (h, k) l =
    rw
      (parse-filters_tokens fs fuel
        (cl_c_brace ∷ comma ∷ dollar ∷ Token.set ∷ colon ∷ vals_def_tokens ss (cl_brace ∷ ts)) h
        (omega arith) (unfold expect_comma in refl))
      (rw (parse-vals_def_tokens ss fuel (cl_brace ∷ ts) k (omega arith)) refl)

statement_tokens-cons :
    (st : Statement) (ts : List Token)
    → (t : Token) × (us : List Token) × (statement_tokens st ts ≡ t ∷ us)
statement_tokens-cons (Statement.receive fs) ts = (_, _, refl)
statement_tokens-cons (remove fs) ts = (_, _, refl)
statement_tokens-cons (Statement.insert id ss) ts = (_, _, refl)
statement_tokens-cons (Statement.update fs ss) ts = (_, _, refl)

parse_commands_cons :
    (fuel : ℕ) (toks ts : List Token) (st : Statement) (sts : List Statement)
    → (t : Token) × (us : List Token) × (toks ≡ t ∷ us)
    → parse_statement fuel toks ≡ some (st, ts)
    → parse_commands fuel ts ≡ some sts
    → parse_commands (suc fuel) toks ≡ some (st ∷ sts)
unfolding parse_commands
parse_commands_cons fuel toks ts st sts (t, us, c) e h =
    let e' : parse_statement fuel (t ∷ us) ≡ some (st, ts) =
      ap (parse_statement fuel) (sym c) ∙ e in
    rw c (rw e' (rw h refl))

parse-tokens_fuel :
    (sts : List Statement) (fuel : ℕ)
    → AreStatements sts
    → length (syntax_tokens sts) ≤ fuel
    → parse_commands fuel (syntax_tokens sts) ≡ some sts
parse-tokens_fuel [] fuel h l = unfold parse_commands in refl
parse-tokens_fuel (st ∷ sts) zero h l =
    absurd (omega (arith, length-statement_tokens st (syntax_tokens sts)))
parse-tokens_fuel (st ∷ sts) (suc fuel) (h, k) l =
    let more_tokens = length-statement_tokens st (syntax_tokens sts) in
    parse_commands_cons fuel _ (syntax_tokens sts) st sts
      (statement_tokens-cons st (syntax_tokens sts))
      (parse-statement_tokens st fuel (syntax_tokens sts) h (omega arith))
      (parse-tokens_fuel sts fuel k (omega arith))

pub parse_syntax-syntax_tokens :
    (sts : List Statement) → AreStatements sts → parse_syntax (syntax_tokens sts) ≡ some sts
parse_syntax-syntax_tokens sts h =
    parse-tokens_fuel sts (length (syntax_tokens sts)) h (omega arith)
