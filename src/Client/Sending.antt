-- ===== src/Client/Sending.antt =====
-- analyzer/main.y: the commands of a text are sent one after the other, each with `sendData`.
-- `yyparse`, which bison generates, is taken for a parser that hands on the commands of the grammar.
use mathlib.Core.List.{reverse_aux}
use llp_base.Common.{
  ℕ, ◌≡◌, refl, ap, ◌∙◌, Option, none, some, List, [], ◌∷◌, ◌++◌, map, append-nil, length, ltb,
  ◌||◌, if◌then◌else◌, true, arith,
}
use llp_base.Message.{Query, max_count}
use llp_base.Client.Build.{
  ◌>>=◌, number, KeyValue, Condition, Builder, int_value, reset, set_cur_oper, set_cur_val,
  switch_filter, set_command, push_filter, conditions,
}
use llp_base.Client.Syntax.{
  Filters, Setting, Statement, receive, remove, insert, update, parent_key, run_statement,
  run_filters, run_settings, run_parent,
}
use llp_base.Client.Wire.{wire_filters, wire_settings, parse_query}
use llp_base.Client.Commands.{
  filters_of, final_type, setting_kv, run_filters-front, run_settings-reverse,
}
use llp_base.Client.Lexer.{Token, lex}
use llp_base.Client.Lexer.Spelling.{Piece, are_pieces, tokens, text}
use llp_base.Client.Lexer.Scan.{lex-text}
use llp_base.Client.Grammar.{AreStatements, syntax_tokens}

-- A command is sent, and `query` is empty again; the stack and `vtype` stay.
unfoldable pub send_all : List Statement → Builder → Option (List Query)
send_all [] b = some []
send_all (st ∷ sts) b = do
  b' ← run_statement st b
  q ← parse_query b'
  qs ← send_all sts (reset b')
  some (q ∷ qs)

module _ (strtod atoi : List ℕ → ℕ) (yyparse : List Token → Option (List Statement)) where
  -- The messages that the text of a session makes the client send.
  unfoldable pub client : List ℕ → Builder → Option (List Query)
  unfolding send_all
  client text b = do
    tokens ← lex strtod atoi (length text) text
    sts ← yyparse tokens
    send_all sts b

-- What a command means: its number, its filters in their order, and its settings from the last.
abbrev pub command_number : Statement → ℕ
command_number (receive fs) = 0
command_number (remove fs) = 1
command_number (insert id ss) = 2
command_number (update fs ss) = 3

abbrev pub parent_condition : ℕ → Condition
parent_condition id = record {
  operation = 0;
  kv = record { key = parent_key; value_type = int_value; value_int = number id; value_real = 0 };
}

abbrev pub filters_sent : Statement → List (List Condition)
filters_sent (receive fs) = filters_of fs
filters_sent (remove fs) = filters_of fs
filters_sent (insert id ss) = (parent_condition id ∷ []) ∷ []
filters_sent (update fs ss) = filters_of fs

abbrev pub settings_sent : Statement → List KeyValue
settings_sent (receive fs) = []
settings_sent (remove fs) = []
settings_sent (insert id ss) = reverse_aux (map setting_kv ss) []
settings_sent (update fs ss) = reverse_aux (map setting_kv ss) []

-- `none` where a text of it, or a list, does not fit the message.
unfoldable pub message : Statement → Option Query
message st = do
  filters ← wire_filters (filters_sent st)
  settings ← wire_settings (settings_sent st)
  if ltb max_count (length filters) || ltb max_count (length settings)
      then none
      else some
          (record { command = command_number st; filters_list = filters; settings_list = settings })

unfoldable pub messages : List Statement → Option (List Query)
messages [] = some []
messages (st ∷ sts) = do q ← message st; qs ← messages sts; some (q ∷ qs)

module _ (b : Builder) where
  filters-message :
      (command : ℕ) (fs : Filters) (ss : List Setting)
      → (b' : Builder) × ((do
        b1 ← run_filters fs (reset b)
        some (set_command command (run_settings ss b1)))
          ≡ some b')
        × (b'.command ≡ command)
        × (b'.filters ≡ [] ∷ filters_of fs)
        × (b'.settings ≡ reverse_aux (map setting_kv ss) [])
  unfolding reset set_command
  filters-message command fs ss =
      let b0 : Builder = record b { command = 0; filters = []; settings = [] } in
      let b1 : Builder = record b0 {
        filters = [] ∷ (filters_of fs ++ []);
        vtype = final_type fs;
      } in
      let (t, e) = run_settings-reverse ss b1 in
      (
        record b1 { command = command; settings = reverse_aux (map setting_kv ss) []; vtype = t },
        ap (λ o. o >>= (λ b2. some (record (run_settings ss b2) { command = command })))
              (run_filters-front fs b0)
            ∙ ap (λ (b3 : Builder). some (record b3 { command = command })) e,
        refl,
        ap (λ l. [] ∷ l) (append-nil (filters_of fs)),
        refl,
      )

  parse_query-fields :
      (st : Statement) (b' : Builder)
      → b'.command ≡ command_number st
      → b'.filters ≡ [] ∷ filters_sent st
      → b'.settings ≡ settings_sent st
      → parse_query b' ≡ message st
  unfolding parse_query message
  parse_query-fields st b' c f s = rw (c, f, s) refl

  statement-message :
      (st : Statement)
      → (b' : Builder) × (run_statement st (reset b) ≡ some b') × (parse_query b' ≡ message st)
  unfolding run_statement run_settings run_parent reset set_cur_oper set_cur_val switch_filter
      conditions push_filter set_command
  statement-message (receive fs) =
      let (b', e, c, f, s) = filters-message 0 fs [] in
      (b', e, parse_query-fields (receive fs) b' c f s)
  statement-message (remove fs) =
      let (b', e, c, f, s) = filters-message 1 fs [] in
      (b', e, parse_query-fields (remove fs) b' c f s)
  statement-message (insert id ss) =
      let b1 : Builder = record b {
        command = 0;
        filters = [] ∷ (parent_condition id ∷ []) ∷ [];
        settings = [];
        vtype = int_value;
      } in
      let (t, e) = run_settings-reverse ss b1 in
      (
        record b1 { command = 2; settings = reverse_aux (map setting_kv ss) []; vtype = t },
        ap (λ (b3 : Builder). some (record b3 { command = 2 })) e,
        parse_query-fields (insert id ss) _ refl refl refl,
      )
  statement-message (update fs ss) =
      let (b', e, c, f, s) = filters-message 3 fs ss in
      (b', e, parse_query-fields (update fs ss) b' c f s)

-- A session sends the messages that its commands mean, each on its own, in their order, whatever was
-- sent before; and where a command fits no message, the client faults.
send_all-messages : (sts : List Statement) (b : Builder) → send_all sts (reset b) ≡ messages sts
unfolding send_all messages
send_all-messages [] b = refl
send_all-messages (st ∷ sts) b =
    let (b', e, m) = statement-message b st in rw e (rw (m, send_all-messages sts b') refl)

module _ (strtod atoi : List ℕ → ℕ) (yyparse : List Token → Option (List Statement))
    (parses : (sts : List Statement)
      → AreStatements sts
      → yyparse (syntax_tokens sts) ≡ some sts) where
  pub client-messages :
      (ps : List Piece) (sts : List Statement) (b : Builder)
      → are_pieces ps ≡ true
      → AreStatements sts
      → tokens strtod atoi ps ≡ syntax_tokens sts
      → client strtod atoi yyparse (text ps) (reset b) ≡ messages sts
  unfolding client
  client-messages ps sts b h k e =
      rw (lex-text strtod atoi ps (length (text ps)) h (omega arith), e)
        (rw (parses sts k) (send_all-messages sts b))
