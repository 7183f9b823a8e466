-- ===== src/Exchange.antt =====
-- The client and the server together: `main` of analyzer/main.y and `main` of server.c over a
-- connection, from the commands that the user types to what the client prints.
pub mod Setup
pub mod Sent
pub mod Insertion
use llp_base.Common.{ℕ, Option, none, some, List, [], ◌∷◌, ◌++◌, Bool, ◌==◌, not, if◌then◌else◌}
use llp_base.OsFile.{Io, pure, ◌>>=◌}
use llp_base.DataFile.{defined}
use llp_base.Message.{Query, Response}
use llp_base.Client.{Builder, Statement}
use llp_base.Client.Lexer.{Token}
use llp_base.Client.Sending.{client}
use llp_base.Server.{receive_response}
use llp_base.Server.Loop.{serve_query}

-- Calls of other code: those of the C library that the scanner makes, the generated parser, nanopb's
-- encoding and decoding of a message with its length, and what `handle_query` takes.
pub record Outside : Type 0 where
  pub strtod : List ℕ → ℕ
  pub atoi : List ℕ → ℕ
  pub yyparse : List Token → Option (List Statement)
  pub encode_query : Query → List ℕ
  pub decode_query : List ℕ → Option Query
  pub to_double : ℕ → ℕ
  pub show_double : ℕ → List ℕ

module _ (o : Outside) (fuel : ℕ) (at_value fresh : List ℕ) where
  -- `sendData` and a round of the server for each message: what the client prints of the answers. The
  -- responses are taken to arrive as they are sent.
  unfoldable pub answer_all : List Query → Io (List ℕ)
  answer_all [] = pure []
  answer_all (q ∷ qs) = do
    query ← defined (o.decode_query (o.encode_query q))
    responses ← serve_query o.to_double o.show_double fuel at_value fresh query
    printed ← defined (receive_response responses)
    rest ← answer_all qs
    pure (printed ++ rest)

  -- What the client prints when the user types the text.
  unfoldable pub session : List ℕ → Builder → Io (List ℕ)
  unfolding answer_all
  session text b = do
    queries ← defined (client o.strtod o.atoi o.yyparse text b)
    answer_all queries
