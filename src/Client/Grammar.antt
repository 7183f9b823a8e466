-- ===== src/Client/Grammar.antt =====
-- analyzer/main.y: the productions, as the tokens of a phrase in front of other tokens.
pub mod Parse
pub mod Rounds
pub mod RoundTrip
use llp_base.Common.{ℕ, zero, suc, ◌<◌, ◌≤◌, List, [], ◌∷◌}
use llp_base.Client.Lexer.{
  Token, storage, parent, or, lo_t, lo_eq_t, gr_t, gr_eq_t, no_eq, op_brace, cl_brace, op_c_brace,
  cl_c_brace, op_sq_brace, cl_sq_brace, colon, dollar, quote, comma, true_word, false_word, string,
}
use llp_base.Client.Syntax.{
  Value, name, bool, FilterPhrase, equal, compare_by, either, Filters, one, more, Setting,
  Statement, remove,
}

-- `value` and `bool`.
abbrev pub value_tokens : Value → List Token → List Token
value_tokens (name s) ts = quote ∷ string s ∷ quote ∷ ts
value_tokens (Value.int n) ts = Token.int n ∷ ts
value_tokens (Value.float r) ts = Token.float r ∷ ts
value_tokens (bool zero) ts = false_word ∷ ts
value_tokens (bool (suc n)) ts = true_word ∷ ts

-- `comp`, by its value.
abbrev pub comp_token : ℕ → Token
comp_token (suc zero) = lo_t
comp_token (suc (suc zero)) = lo_eq_t
comp_token (suc (suc (suc zero))) = gr_t
comp_token (suc (suc (suc (suc zero)))) = gr_eq_t
comp_token _ = no_eq

-- `filter`, and `operation` in it.
abbrev pub filter_tokens : FilterPhrase → List Token → List Token
filter_tokens (equal key v) ts = string key ∷ colon ∷ value_tokens v ts
filter_tokens (compare_by key comp v) ts =
    string key
    ∷ colon
    ∷ op_c_brace
    ∷ dollar
    ∷ comp_token comp
    ∷ colon
    ∷ value_tokens v (cl_c_brace ∷ ts)
filter_tokens (either f g) ts =
    dollar ∷ or ∷ op_sq_brace ∷ filter_tokens f (comma ∷ filter_tokens g (cl_sq_brace ∷ ts))

abbrev pub filters_tokens : Filters → List Token → List Token
filters_tokens (one f) ts = filter_tokens f ts
filters_tokens (more f fs) ts = filter_tokens f (comma ∷ filters_tokens fs ts)

-- `set_vals`.
abbrev pub set_vals_tokens : List Setting → List Token → List Token
set_vals_tokens [] ts = ts
set_vals_tokens ((key, v) ∷ []) ts = string key ∷ colon ∷ value_tokens v ts
set_vals_tokens ((key, v) ∷ s ∷ ss) ts =
    string key ∷ colon ∷ value_tokens v (comma ∷ set_vals_tokens (s ∷ ss) ts)

abbrev pub vals_def_tokens : List Setting → List Token → List Token
vals_def_tokens ss ts = op_c_brace ∷ set_vals_tokens ss (cl_c_brace ∷ ts)

abbrev pub parent_def_tokens : ℕ → List Token → List Token
parent_def_tokens id ts = op_c_brace ∷ parent ∷ colon ∷ Token.int id ∷ cl_c_brace ∷ ts

-- `mongosh`.
abbrev pub statement_tokens : Statement → List Token → List Token
statement_tokens (Statement.receive fs) ts =
    storage ∷ Token.receive ∷ op_brace ∷ op_c_brace ∷ filters_tokens fs (cl_c_brace ∷ cl_brace ∷ ts)
statement_tokens (remove fs) ts =
    storage ∷ Token.delete ∷ op_brace ∷ op_c_brace ∷ filters_tokens fs (cl_c_brace ∷ cl_brace ∷ ts)
statement_tokens (Statement.insert id ss) ts =
    storage
    ∷ Token.insert
    ∷ op_brace
    ∷ parent_def_tokens id (comma ∷ vals_def_tokens ss (cl_c_brace ∷ ts))
statement_tokens (Statement.update fs ss) ts =
    storage
    ∷ Token.update
    ∷ op_brace
    ∷ op_c_brace
    ∷ filters_tokens fs
        (cl_c_brace ∷ comma ∷ dollar ∷ Token.set ∷ colon ∷ vals_def_tokens ss (cl_brace ∷ ts))

-- `syntax`.
abbrev pub syntax_tokens : List Statement → List Token
syntax_tokens [] = []
syntax_tokens (st ∷ sts) = statement_tokens st (syntax_tokens sts)

-- What a phrase of the grammar is: a Boolean is 0 or 1, a comparison one of five, and no list of
-- settings is empty.
abbrev pub IsValue : Value → Type 0
IsValue (name s) = Unit {0}
IsValue (Value.int n) = Unit {0}
IsValue (Value.float r) = Unit {0}
IsValue (bool n) = n < 2

abbrev pub IsFilter : FilterPhrase → Type 0
IsFilter (equal key v) = IsValue v
IsFilter (compare_by key comp v) = (0 < comp) × (comp < 6) × IsValue v
IsFilter (either f g) = IsFilter f × IsFilter g

abbrev pub AreFilters : Filters → Type 0
AreFilters (one f) = IsFilter f
AreFilters (more f fs) = IsFilter f × AreFilters fs

abbrev pub AreSettings : List Setting → Type 0
AreSettings [] = ⊥
AreSettings ((key, v) ∷ []) = IsValue v
AreSettings ((key, v) ∷ s ∷ ss) = IsValue v × AreSettings (s ∷ ss)

abbrev pub IsStatement : Statement → Type 0
IsStatement (Statement.receive fs) = AreFilters fs
IsStatement (remove fs) = AreFilters fs
IsStatement (Statement.insert id ss) = AreSettings ss
IsStatement (Statement.update fs ss) = AreFilters fs × AreSettings ss

abbrev pub AreStatements : List Statement → Type 0
AreStatements [] = Unit {0}
AreStatements (st ∷ sts) = IsStatement st × AreStatements sts
