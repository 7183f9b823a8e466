-- ===== src/Client/Grammar/Rounds.antt =====
-- analyzer/main.y: how many rounds the reference parser takes, no more than there are tokens.
use llp_base.Common.{ℕ, zero, suc, ◌+◌, ◌<◌, ◌≤◌, List, [], ◌∷◌, length, arith}
use llp_base.Client.Lexer.{Token, comma, dollar, colon, cl_c_brace, cl_sq_brace, cl_brace}
use llp_base.Client.Syntax.{
  Value, name, bool, FilterPhrase, equal, compare_by, either, Filters, one, more, Setting,
  Statement, remove,
}
use llp_base.Client.Grammar.{
  value_tokens, filter_tokens, filters_tokens, set_vals_tokens, vals_def_tokens, statement_tokens,
}

-- How deep the alternatives of a filter are nested.
abbrev pub filter_fuel : FilterPhrase → ℕ
filter_fuel (equal key v) = 1
filter_fuel (compare_by key comp v) = 1
filter_fuel (either f g) = suc (filter_fuel f + filter_fuel g)

abbrev pub filters_fuel : Filters → ℕ
filters_fuel (one f) = suc (filter_fuel f)
filters_fuel (more f fs) = suc (filter_fuel f + filters_fuel fs)

abbrev pub statement_fuel : Statement → ℕ
statement_fuel (Statement.receive fs) = filters_fuel fs
statement_fuel (remove fs) = filters_fuel fs
statement_fuel (Statement.insert id ss) = length ss
statement_fuel (Statement.update fs ss) = filters_fuel fs + length ss

-- The tokens are enough rounds.
length-value_tokens : (v : Value) (ts : List Token) → length ts < length (value_tokens v ts)
length-value_tokens (name s) ts = omega arith
length-value_tokens (Value.int n) ts = omega arith
length-value_tokens (Value.float r) ts = omega arith
length-value_tokens (bool zero) ts = omega arith
length-value_tokens (bool (suc n)) ts = omega arith

length-filter_tokens :
    (f : FilterPhrase) (ts : List Token) → filter_fuel f + length ts < length (filter_tokens f ts)
length-filter_tokens (equal key v) ts = omega (arith, length-value_tokens v ts)
length-filter_tokens (compare_by key comp v) ts =
    omega (arith, length-value_tokens v (cl_c_brace ∷ ts))
length-filter_tokens (either f g) ts = omega (
  arith,
  length-filter_tokens f (comma ∷ filter_tokens g (cl_sq_brace ∷ ts)),
  length-filter_tokens g (cl_sq_brace ∷ ts),
)

length-filters_tokens :
    (fs : Filters) (ts : List Token) → filters_fuel fs + length ts ≤ length (filters_tokens fs ts)
length-filters_tokens (one f) ts = omega (arith, length-filter_tokens f ts)
length-filters_tokens (more f fs) ts =
    omega
      (arith, length-filter_tokens f (comma ∷ filters_tokens fs ts), length-filters_tokens fs ts)

length-set_vals_tokens :
    (ss : List Setting) (ts : List Token) → length ss + length ts ≤ length (set_vals_tokens ss ts)
length-set_vals_tokens [] ts = omega arith
length-set_vals_tokens ((key, v) ∷ []) ts = omega (arith, length-value_tokens v ts)
length-set_vals_tokens ((key, v) ∷ s ∷ ss) ts = omega (
  arith,
  length-value_tokens v (comma ∷ set_vals_tokens (s ∷ ss) ts),
  length-set_vals_tokens (s ∷ ss) ts,
)

pub length-statement_tokens :
    (st : Statement) (ts : List Token)
    → statement_fuel st + length ts < length (statement_tokens st ts)
length-statement_tokens (Statement.receive fs) ts =
    omega (arith, length-filters_tokens fs (cl_c_brace ∷ cl_brace ∷ ts))
length-statement_tokens (remove fs) ts =
    omega (arith, length-filters_tokens fs (cl_c_brace ∷ cl_brace ∷ ts))
length-statement_tokens (Statement.insert id ss) ts =
    omega (arith, length-set_vals_tokens ss (cl_c_brace ∷ cl_c_brace ∷ ts))
length-statement_tokens (Statement.update fs ss) ts = omega (
  arith,
  length-filters_tokens fs
      (cl_c_brace ∷ comma ∷ dollar ∷ Token.set ∷ colon ∷ vals_def_tokens ss (cl_brace ∷ ts)),
  length-set_vals_tokens ss (cl_c_brace ∷ cl_brace ∷ ts),
)
