-- ===== src/Tests/Exchanging.antt =====
-- An insertion from the user's text to the file; the witness of the theorem about it.
use llp_base.Common.{◌≡◌, refl, false, some, List, [], ◌∷◌, codes, arith}
use llp_base.Message.{Query}
use llp_base.Client.{
  Value, reset, wire_int, wire_string, wire_kv, wire_conditions, wire_filters, wire_settings,
  int_part, real_part,
}
use llp_base.Client.Lexer.Spelling.{
  Piece, word_piece, mark_piece, int_piece, storage_mark, op_brace_mark, op_c_brace_mark,
  cl_c_brace_mark, colon_mark, comma_mark, text, lookup,
}
use llp_base.Client.Grammar.Parse.{parse_syntax}
use llp_base.Client.Grammar.RoundTrip.{parse_syntax-syntax_tokens}
use llp_base.Client.Sending.{message}
use llp_base.Exchange.{Outside, session}
use llp_base.Exchange.Setup.{server_main, client_main, connected, exited, no_argument}
use llp_base.Exchange.Insertion.{session-Inserted}
use llp_base.Format.{decimal}
use llp_base.Handler.{insert_text}
use llp_base.Handler.Insertion.{Inserted, IsUnset, stored_names}
use llp_base.OsFile.{ok}
use llp_base.Schema.Sizes.{real_node_size}
use llp_base.Store.Lookup.{behind_schema}
use llp_base.Tests.Data.{fresh, empty_tree, empty_world}
use llp_base.Tests.Scanning.{example_atoi, example_strtod, number_after, builder, pair}
use llp_base.Tests.Serving.{empty-Holds, to_double, to_double-lt}

-- storage.insert({parent:0},{key:7}}
abbrev insertion_pieces : List Piece
insertion_pieces =
    mark_piece storage_mark
    ∷ word_piece b'i' (codes "nsert")
    ∷ mark_piece op_brace_mark
    ∷ mark_piece op_c_brace_mark
    ∷ word_piece b'p' (codes "arent")
    ∷ mark_piece colon_mark
    ∷ int_piece false (codes "0")
    ∷ mark_piece cl_c_brace_mark
    ∷ mark_piece comma_mark
    ∷ mark_piece op_c_brace_mark
    ∷ word_piece b'k' (codes "ey")
    ∷ mark_piece colon_mark
    ∷ int_piece false (codes "7")
    ∷ mark_piece cl_c_brace_mark
    ∷ mark_piece cl_c_brace_mark
    ∷ []

abbrev sent_query : Query
sent_query = record {
  command = 2;
  filters_list =
      record { comp_list = record { operation = 0; kv = pair (codes "parent") 1 0 0 [] } ∷ [] }
      ∷ [];
  settings_list = record { kv = pair (codes "key") 1 7 0 [] } ∷ [];
}

-- A code of messages by which this one comes back.
abbrev outside : Outside
outside = record {
  strtod = example_strtod;
  atoi = example_atoi;
  yyparse = parse_syntax;
  encode_query = λ q. q.command ∷ [];
  decode_query = λ bytes. some sent_query;
  to_double = to_double;
  show_double = decimal;
}

session-Inserted_example :
    Inserted empty_world
      (0 ∷ [])
      []
      0
      insert_text
      (IsUnset to_double
        (0 ∷ [])
        (stored_names empty-Holds)
        sent_query.settings_list
        (behind_schema empty_world empty_tree))
      (session outside 1 [] fresh (text insertion_pieces) (reset builder) empty_world)
unfolding real_node_size number_after lookup message wire_int wire_string wire_kv wire_conditions
    wire_filters wire_settings int_part real_part
session-Inserted_example =
    session-Inserted empty-Holds outside parse_syntax-syntax_tokens to_double-lt 1 [] fresh builder
      insertion_pieces 0 ((codes "key", Value.int 7) ∷ []) sent_query refl tt refl refl refl
      (tt, tt) refl (omega arith) (omega arith) (omega arith)

-- Without a port the server ends, and the file is as it was.
no_port :
    server_main to_double decimal 1 [] fresh
      (record { bind = 1; listen = 0; accept = some 5 })
      (sent_query ∷ [])
      empty_world
    ≡ ok (1, []) empty_world
unfolding server_main
no_port = refl

refused :
    client_main (λ host. 0) (λ address. 1) (codes "client" ∷ codes "127.0.0.1" ∷ []) ≡ exited 1
unfolding client_main
refused = refl

accepted :
    client_main (λ host. 0) (λ address. 0) (codes "client" ∷ codes "127.0.0.1" ∷ []) ≡ connected
unfolding client_main
accepted = refl

nowhere : client_main (λ host. 0) (λ address. 0) (codes "client" ∷ []) ≡ no_argument
unfolding client_main
nowhere = refl
