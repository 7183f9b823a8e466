-- ===== src/Server/Loop.antt =====
-- The loop of `main` in server.c, from the queries that are decoded to the responses that are encoded.
use llp_base.Common.{ℕ, suc, Option, none, some, List, [], ◌∷◌, length}
use llp_base.OsFile.{Io, pure, no_fuel, ◌>>=◌}
use llp_base.Message.{Query, Response}
use llp_base.Handler.{handle_query}
use llp_base.Server.{send_response}

-- The rounds that send the answer, one more than it has characters, are enough.
abbrev sent : Option (List Response) → Io (List Response)
sent none = no_fuel
sent (some responses) = pure responses

module _ (to_double : ℕ → ℕ) (show_double : ℕ → List ℕ) (fuel : ℕ) (at_value fresh : List ℕ) where
  -- One round of the loop: the responses to a query.
  unfoldable pub serve_query : Query → Io (List Response)
  serve_query query = do
    res ← handle_query to_double show_double fuel at_value fresh query
    sent (send_response (suc (length res)) res)

  -- The rounds, until a query cannot be decoded: the responses to each.
  unfoldable pub serve : List Query → Io (List (List Response))
  unfolding serve_query
  serve [] = pure []
  serve (query ∷ queries) = do
    responses ← serve_query query
    rest ← serve queries
    pure (responses ∷ rest)
