-- ===== src/Server/Serving.antt =====
-- A round of the server's loop: the query is carried out, and the client prints the whole answer.
use llp_base.Common.{
  ℕ, suc, ◌+◌, ◌^◌, ◌<◌, ◌≡◌, ◌≢◌, ◌⊎◌, inl, inr, refl, some, List, [], ◌∷◌, ◌++◌, length, arith,
}
use llp_base.OsFile.{World, Run, ok}
use llp_base.Schema.Sizes.{real_node_size, slots}
use llp_base.Message.{Query, Response}
use llp_base.Handler.{handle_query, insert_text, parent_of}
use llp_base.Handler.Insertion.{IsUnset, stored_names, handle_query-Inserted}
use llp_base.Public.{ErrCode, ok_code}
use llp_base.Public.Terminated.{AreTerminated}
use llp_base.Public.Typed.{AreDecoded}
use llp_base.Store.Lookup.{behind_schema}
use llp_base.Store.Tree.{TreeNode, Holds}
use llp_base.Server.{receive_response}
use llp_base.Server.Chunks.{AreChunks, receive-send}
use llp_base.Server.Loop.{serve_query}

-- The round returns, the file is then `w'`, and what the client prints of the responses is `text`.
pub record Answers (run : Run (List Response)) (text : List ℕ) (w' : World) : Type 0 where
  pub responses : List Response
  pub returns : run ≡ ok responses w'
  pub chunks : AreChunks responses
  pub printed : receive_response responses ≡ some text

module _ (to_double : ℕ → ℕ) (show_double : ℕ → List ℕ) (fuel : ℕ) (at_value fresh : List ℕ) where
  pub serve_query-Answers :
      (query : Query) (text : List ℕ) (w w' : World)
      → handle_query to_double show_double fuel at_value fresh query w ≡ ok text w'
      → Answers (serve_query to_double show_double fuel at_value fresh query w) text w'
  unfolding serve_query
  serve_query-Answers query text w w' handled =
      let (rs, sent, chunks, printed) = receive-send (suc (length text)) text (omega arith) in
      record {
        responses = rs;
        returns = rw (handled, sent) refl;
        chunks = chunks;
        printed = printed;
      }

  pub serve_query-insertion :
      {w : World} {types : List ℕ} {nodes : List TreeNode} (h : Holds w types nodes) (query : Query)
      → query.command ≡ 2
      → ((n : ℕ) → to_double n < 2 ^ 64)
      → AreTerminated (stored_names h)
      → AreDecoded query.settings_list
      → length fresh ≡ real_node_size (length types)
      → parent_of query.filters_list < 2 ^ 64
      → length nodes + 1 < slots (length types)
      → (IsUnset to_double types (stored_names h) query.settings_list (behind_schema w h.tree) → ⊥)
      → ((n : TreeNode) × (w' : World) × (n.parent ≡ parent_of query.filters_list)
          × Answers
              (serve_query to_double show_double fuel at_value fresh query w)
              (insert_text ok_code)
              w'
          × Holds w' types (nodes ++ n ∷ []))
        ⊎ ((code : ErrCode) × (p : ℕ) × (code ≢ ok_code)
            × Answers
                (serve_query to_double show_double fuel at_value fresh query w)
                (insert_text code)
                (record w { pos = p }))
  serve_query-insertion {w} h query insertion doubles ends decoded block parent_word room all_set =
      elim (handle_query-Inserted h to_double show_double fuel at_value fresh query insertion
        doubles ends decoded block parent_word room) [
          | inl (values, w', e, h') ↦
              inl (_, w', refl, serve_query-Answers query (insert_text ok_code) w w' e, h')
          | inr (inl (c, p, bad, e)) ↦
              inr (c, p, bad, serve_query-Answers query (insert_text c) w (record w { pos = p }) e)
          | inr (inr (u, e)) ↦ absurd (all_set u)
        ]
