-- ===== src/Tests/Scanning.antt =====
-- A command as a text, scanned, parsed and sent; witnesses of the theorems about the client.
use llp_base.Common.{ℕ, ◌+◌, ◌-◌, ◌*◌, ◌≡◌, refl, some, false, List, [], ◌∷◌, length, codes, arith}
use llp_base.Message.{KeyValuePair}
use llp_base.Client.{
  Builder, Value, name, compare_by, one, Statement, reset, wire_int, wire_string, wire_kv,
  wire_conditions, wire_filters, wire_settings, semantic, int_part, real_part, conditions,
}
use llp_base.Client.Lexer.{
  Token, colon, lex, first_best, matched, is_prefix, word_length, point_length, signed_length,
  fraction_length, span,
}
use llp_base.Client.Lexer.Spelling.{
  Piece, word_piece, mark_piece, int_piece, float_piece, blank_piece, storage_mark, op_brace_mark,
  cl_brace_mark, op_c_brace_mark, cl_c_brace_mark, colon_mark, dollar_mark, quote_mark, comma_mark,
  text, lookup,
}
use llp_base.Client.Lexer.Scan.{lex-text}
use llp_base.Client.Grammar.{syntax_tokens}
use llp_base.Client.Grammar.Parse.{parse_syntax}
use llp_base.Client.Grammar.RoundTrip.{parse_syntax-syntax_tokens}
use llp_base.Client.Sending.{client, message, messages, client-messages}

-- Of a text of digits, its number; of a text with a minus, its opposite among 64 bits.
unfoldable pub number_after : ℕ → List ℕ → ℕ
number_after n [] = n
number_after n (c ∷ s) = number_after (10 * n + (c - b'0')) s

abbrev pub example_atoi : List ℕ → ℕ
example_atoi s = number_after 0 s

-- Any function does for the bits of a float.
abbrev pub example_strtod : List ℕ → ℕ
example_strtod s = length s

abbrev pub pair : List ℕ → ℕ → ℕ → ℕ → List ℕ → KeyValuePair
pair k t i r s = record { key = k; value_type = t; value_int = i; value_real = r; value_string = s }

abbrev space : Piece
space = blank_piece 32

-- storage.update({key: {$gr_t: 12}}, $set: {a: "b", c:.5})
abbrev pieces : List Piece
pieces =
    mark_piece storage_mark
    ∷ word_piece b'u' (codes "pdate")
    ∷ mark_piece op_brace_mark
    ∷ mark_piece op_c_brace_mark
    ∷ word_piece b'k' (codes "ey")
    ∷ mark_piece colon_mark
    ∷ space
    ∷ mark_piece op_c_brace_mark
    ∷ mark_piece dollar_mark
    ∷ word_piece b'g' (codes "r_t")
    ∷ mark_piece colon_mark
    ∷ space
    ∷ int_piece false (codes "12")
    ∷ mark_piece cl_c_brace_mark
    ∷ mark_piece cl_c_brace_mark
    ∷ mark_piece comma_mark
    ∷ space
    ∷ mark_piece dollar_mark
    ∷ word_piece b's' (codes "et")
    ∷ mark_piece colon_mark
    ∷ space
    ∷ mark_piece op_c_brace_mark
    ∷ word_piece b'a' []
    ∷ mark_piece colon_mark
    ∷ space
    ∷ mark_piece quote_mark
    ∷ word_piece b'b' []
    ∷ mark_piece quote_mark
    ∷ mark_piece comma_mark
    ∷ space
    ∷ word_piece b'c' []
    ∷ mark_piece colon_mark
    ∷ float_piece false [] (codes "5")
    ∷ mark_piece cl_c_brace_mark
    ∷ mark_piece cl_brace_mark
    ∷ []

abbrev command : Statement
command =
    Statement.update (one (compare_by (codes "key") 3 (Value.int 12)))
      ((codes "a", name (codes "b")) ∷ (codes "c", Value.float 2) ∷ [])

text-pieces : text pieces ≡ codes "storage.update({key: {$gr_t: 12}}, $set: {a: \"b\", c:.5})"
text-pieces = refl

abbrev pub builder : Builder
builder = record { command = 0; filters = []; settings = []; cmp = []; vtype = 0 }

lex-text_example :
    lex example_strtod example_atoi 60 (text pieces) ≡ some (syntax_tokens (command ∷ []))
unfolding number_after lookup
lex-text_example = lex-text example_strtod example_atoi pieces 60 refl (omega arith)

parse_syntax-syntax_tokens_example :
    parse_syntax (syntax_tokens (command ∷ command ∷ [])) ≡ some (command ∷ command ∷ [])
parse_syntax-syntax_tokens_example =
    parse_syntax-syntax_tokens (command ∷ command ∷ []) (omega arith)

client-messages_example :
    client example_strtod example_atoi parse_syntax (text pieces) (reset builder)
    ≡ messages (command ∷ [])
unfolding number_after lookup
client-messages_example =
    client-messages example_strtod example_atoi parse_syntax parse_syntax-syntax_tokens pieces
      (command ∷ []) builder refl (omega arith) refl

-- The names and texts of the command reach the message.
messages_command :
    messages (command ∷ [])
    ≡ some (
        record {
          command = 3;
          filters_list =
              record {
                comp_list = record { operation = 3; kv = pair (codes "key") 1 12 0 [] } ∷ [];
              }
              ∷ [];
          settings_list =
              record { kv = pair (codes "c") 2 0 2 [] }
              ∷ record { kv = pair (codes "a") 0 0 0 (codes "b") }
              ∷ [];
        }
        ∷ [])
unfolding messages message conditions semantic int_part real_part wire_filters wire_conditions
    wire_kv wire_int wire_string wire_settings
messages_command = refl

-- `parent` is no name: a filter on it is not in the grammar.
no_parent_filter :
    lex example_strtod example_atoi 9 (codes "parent: 5")
    ≡ some (Token.parent ∷ colon ∷ Token.int 5 ∷ [])
unfolding lex first_best matched is_prefix word_length point_length signed_length fraction_length
    span number_after
no_parent_filter = refl
