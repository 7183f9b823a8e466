-- ===== src/Client/Lexer.antt =====
-- analyzer/rules.lex: the rules, and what the scanner that flex makes of them does: of the rules with
-- the longest match the first is taken.
pub mod Spelling
pub mod Words
pub mod Patterns
pub mod Numbers
pub mod Scan
use llp_base.Common.{
  ℕ, zero, suc, ◌+◌, Option, none, some, Bool, true, false, ◌&&◌, ◌||◌, List, [], ◌∷◌, ◌++◌, map,
  length, take, drop, ltb, leb, ◌==◌, codes, if◌then◌else◌,
}

-- The tokens that main.y declares, with their values.
pub data Token : Type 0 where
  storage receive insert delete update parent set or lo_t lo_eq_t gr_t gr_eq_t no_eq : Token
  op_brace cl_brace op_c_brace cl_c_brace op_sq_brace cl_sq_brace colon dollar quote comma : Token
  true_word false_word : Token
  string : List ℕ → Token
  float : ℕ → Token
  int : ℕ → Token

abbrev pub is_digit : ℕ → Bool
is_digit c = leb b'0' c && leb c b'9'

abbrev pub is_letter : ℕ → Bool
is_letter c = (leb b'a' c && leb c b'z') || (leb b'A' c && leb c b'Z')

abbrev pub is_word_character : ℕ → Bool
is_word_character c = is_letter c || (c == b'_') || is_digit c

-- The left sides of the rules.
pub data Pattern : Type 0 where
  literal : List ℕ → Pattern
  word point_number number blank any_character : Pattern

unfoldable pub is_prefix : List ℕ → List ℕ → Bool
is_prefix [] s = true
is_prefix (c ∷ k) [] = false
is_prefix (c ∷ k) (d ∷ s) = (c == d) && is_prefix k s

-- How many characters in front have the property.
unfoldable pub span : (ℕ → Bool) → List ℕ → ℕ
span p [] = 0
span p (c ∷ s) = let rest = span p s in if p c then suc rest else 0

-- `[a-zA-Z][a-zA-Z_0-9]*`.
unfoldable pub word_length : List ℕ → ℕ
unfolding span
word_length [] = 0
word_length (c ∷ s) = let rest = span is_word_character s in if is_letter c then suc rest else 0

-- `[-]?` in front of another pattern, which needs a character.
unfoldable pub signed_length : (List ℕ → ℕ) → List ℕ → ℕ
signed_length f [] = 0
signed_length f (c ∷ s) = if c == b'-' then (if f s == 0 then 0 else suc (f s)) else f (c ∷ s)

-- `\.[0-9]+`, behind so many digits.
unfoldable pub fraction_length : ℕ → List ℕ → ℕ
unfolding span
fraction_length n [] = 0
fraction_length n (c ∷ s) =
    if (c == b'.') && ltb 0 (span is_digit s) then n + 1 + span is_digit s else 0

unfoldable pub point_length : List ℕ → ℕ
unfolding span fraction_length
point_length s = fraction_length (span is_digit s) (drop (span is_digit s) s)

-- The length of the longest match at the front of the text.
unfoldable pub matched : Pattern → List ℕ → ℕ
unfolding is_prefix word_length signed_length point_length span
matched (literal k) s = if is_prefix k s then length k else 0
matched word s = word_length s
matched point_number s = signed_length point_length s
matched number s = signed_length (span is_digit) s
matched blank [] = 0
matched blank (c ∷ s) = if (c == 32) || (c == 9) || (c == 10) then 1 else 0
matched any_character [] = 0
matched any_character (c ∷ s) = if c == 10 then 0 else 1

-- What a rule makes of the text that it matches: a token, or nothing.
abbrev pub Action : Type 0
Action = List ℕ → Option Token

abbrev pub Rule : Type 0
Rule = Pattern × Action

abbrev pub keywords : List (List ℕ × Token)
keywords =
    (codes "storage.", storage)
    ∷ (codes "receive", receive)
    ∷ (codes "insert", insert)
    ∷ (codes "delete", delete)
    ∷ (codes "update", update)
    ∷ (codes "parent", parent)
    ∷ (codes "set", set)
    ∷ (codes "or", or)
    ∷ (codes "lo_t", lo_t)
    ∷ (codes "lo_eq_t", lo_eq_t)
    ∷ (codes "gr_t", gr_t)
    ∷ (codes "gr_eq_t", gr_eq_t)
    ∷ (codes "no_eq", no_eq)
    ∷ (codes "(", op_brace)
    ∷ (codes ")", cl_brace)
    ∷ (codes "{", op_c_brace)
    ∷ (codes "}", cl_c_brace)
    ∷ (codes "[", op_sq_brace)
    ∷ (codes "]", cl_sq_brace)
    ∷ (codes ":", colon)
    ∷ (codes "$", dollar)
    ∷ (codes "\"", quote)
    ∷ (codes ",", comma)
    ∷ (codes "True", true_word)
    ∷ (codes "False", false_word)
    ∷ []

abbrev pub keyword_rule : List ℕ × Token → Rule
keyword_rule (k, token) = (literal k, (λ _. some token))

abbrev pub nothing : Action
nothing _ = none

-- The longest match, and the action of the first rule that has it.
unfoldable pub first_best : List Rule → List ℕ → ℕ × Action
unfolding matched
first_best [] s = (0, nothing)
first_best ((p, action) ∷ rs) s =
    let rest = first_best rs s in if leb rest.0 (matched p s) then (matched p s, action) else rest

abbrev pub with_token : Option Token → List Token → List Token
with_token none tokens = tokens
with_token (some t) tokens = t ∷ tokens

abbrev pub before : Option Token → Option (List Token) → Option (List Token)
before t none = none
before t (some tokens) = some (with_token t tokens)

-- `strtod`, rounded to the bits of a `float`, and `atoi`, widened to 64 bits, are calls of the C
-- library.
module _ (strtod atoi : List ℕ → ℕ) where
  abbrev pub pattern_rules : List Rule
  pattern_rules =
      (word, (λ s. some (string s)))
      ∷ (point_number, (λ s. some (float (strtod s))))
      ∷ (number, (λ s. some (int (atoi s))))
      ∷ (blank, nothing)
      ∷ (any_character, nothing)
      ∷ []

  abbrev pub rules : List Rule
  rules = map keyword_rule keywords ++ pattern_rules

  -- The tokens of a text; a round for each character is enough.
  unfoldable pub lex : ℕ → List ℕ → Option (List Token)
  unfolding first_best
  lex fuel [] = some []
  lex zero (c ∷ s) = none
  lex (suc fuel) (c ∷ s) =
      let (n, action) = first_best rules (c ∷ s) in
      before (action (take n (c ∷ s))) (lex fuel (drop n (c ∷ s)))
