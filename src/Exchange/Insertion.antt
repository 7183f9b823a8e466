-- ===== src/Exchange/Insertion.antt =====
-- An insertion that a user types, from the text to the file and back to the user.
use mathlib.Core.Path.{subst}
use llp_base.Common.{
  ℕ, ◌+◌, ◌^◌, ◌<◌, ◌≡◌, refl, sym, ap, ◌∙◌, some, true, inl, inr, List, [], ◌∷◌, ◌++◌, length,
  append-nil,
}
use llp_base.OsFile.{World, ok, fault}
use llp_base.Schema.Sizes.{real_node_size, slots}
use llp_base.Message.{Query}
use llp_base.Client.{Builder, Setting, Statement, reset}
use llp_base.Client.Lexer.Spelling.{Piece, are_pieces, text, tokens}
use llp_base.Client.Grammar.{AreSettings, AreStatements, syntax_tokens}
use llp_base.Client.Sending.{client, message, messages, client-messages}
use llp_base.Handler.{handle_query, insert_text}
use llp_base.Handler.Insertion.{Inserted, IsUnset, stored_names, handle_query-Inserted}
use llp_base.Public.Terminated.{AreTerminated}
use llp_base.Server.Loop.{serve_query}
use llp_base.Server.Serving.{serve_query-Answers}
use llp_base.Store.Lookup.{behind_schema}
use llp_base.Store.Tree.{TreeNode, Holds}
use llp_base.Exchange.{Outside, answer_all, session}
use llp_base.Exchange.Sent.{
  SetWords, reverse_aux-HaveWords, wire_settings-AreDecoded, message-insertion,
}

one_message :
    (st : Statement) (q : Query) → message st ≡ some q → messages (st ∷ []) ≡ some (q ∷ [])
unfolding messages
one_message st q e = rw e refl

module _ (o : Outside) (fuel : ℕ) (at_value fresh : List ℕ) (input : List ℕ) (b : Builder)
    (q : Query) (sent : client o.strtod o.atoi o.yyparse input b ≡ some (q ∷ []))
    (carried : o.decode_query (o.encode_query q) ≡ some q) where
  -- One message is answered, and the client prints the answer.
  session-answer :
      (answer : List ℕ) (w w' : World)
      → handle_query o.to_double o.show_double fuel at_value fresh q w ≡ ok answer w'
      → session o fuel at_value fresh input b w ≡ ok answer w'
  unfolding session answer_all
  session-answer answer w w' handled =
      let a =
        serve_query-Answers o.to_double o.show_double fuel at_value fresh q answer w w' handled in
      rw (sent, carried, a.returns, a.printed) (ap (λ (l : List ℕ). ok l w') (append-nil answer))

  session-fault :
      (w : World)
      → handle_query o.to_double o.show_double fuel at_value fresh q w ≡ fault
      → session o fuel at_value fresh input b w ≡ fault
  unfolding session answer_all serve_query
  session-fault w handled = rw (sent, carried, handled) refl

module _ {w : World} {types : List ℕ} {nodes : List TreeNode} (h : Holds w types nodes)
    (o : Outside)
    (parses : (sts : List Statement) → AreStatements sts → o.yyparse (syntax_tokens sts) ≡ some sts)
    (doubles : (n : ℕ) → o.to_double n < 2 ^ 64) where
  pub session-Inserted :
      (fuel : ℕ) (at_value fresh : List ℕ) (b : Builder) (ps : List Piece) (id : ℕ)
      (ss : List Setting) (q : Query)
      → are_pieces ps ≡ true
      → AreSettings ss
      → tokens o.strtod o.atoi ps ≡ syntax_tokens (Statement.insert id ss ∷ [])
      → message (Statement.insert id ss) ≡ some q
      → o.decode_query (o.encode_query q) ≡ some q
      → AreTerminated (stored_names h)
      → length fresh ≡ real_node_size (length types)
      → id < 2 ^ 64
      → SetWords ss
      → length nodes + 1 < slots (length types)
      → Inserted w types nodes id insert_text
          (IsUnset o.to_double types (stored_names h) q.settings_list (behind_schema w h.tree))
          (session o fuel at_value fresh (text ps) (reset b) w)
  session-Inserted fuel at_value fresh b ps id ss q pieces grammar spelled sends carried ends block
        word words room =
      let (command, parent, settings) = message-insertion id ss q sends in
      let sent : client o.strtod o.atoi o.yyparse (text ps) (reset b) ≡ some (q ∷ []) =
        client-messages o.strtod o.atoi o.yyparse parses ps _ b pieces (grammar, tt) spelled
        ∙ one_message _ q sends in
      let decoded =
        wire_settings-AreDecoded _ q.settings_list settings
          (reverse_aux-HaveWords ss [] words tt) in
      let answer = session-answer o fuel at_value fresh (text ps) (reset b) q sent carried in
      elim (handle_query-Inserted h o.to_double o.show_double fuel at_value fresh q command doubles
        ends decoded block (subst (λ n. n < 2 ^ 64) (sym parent) word) room) [
          | inl (values, w', e, h') ↦ inl (
            values,
            w',
            answer _ w w' e,
            subst (λ n. Holds w' types (nodes ++ record { parent = n; values = values } ∷ []))
                parent h',
          )
          | inr (inl (c, p, bad, e)) ↦ inr (inl (c, p, bad, answer _ w _ e))
          | inr (inr (u, e)) ↦
              inr (
                inr (u, session-fault o fuel at_value fresh (text ps) (reset b) q sent carried w e))
        ]
