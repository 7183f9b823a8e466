-- ===== src/Exchange/Setup.antt =====
-- The set-up of `main` in server.c and of `main` in analyzer/main.y. What the calls of the operating
-- system return is a parameter.
use llp_base.Common.{ℕ, Option, none, some, List, [], ◌==◌, get_elem?, if◌then◌else◌}
use llp_base.OsFile.{Io, pure, ◌>>=◌}
use llp_base.Message.{Query, Response}
use llp_base.Server.Loop.{serve}

-- What `bind`, `listen` and `accept` return, the last one `none` for a negative number.
pub record ServerCalls : Type 0 where
  pub bind : ℕ
  pub listen : ℕ
  pub accept : Option ℕ

module _ (to_double : ℕ → ℕ) (show_double : ℕ → List ℕ) (fuel : ℕ) (at_value fresh : List ℕ) where
  -- Behind `initialize`: the exit code of the server, and what it sent before, where these are the
  -- queries that it decodes before one cannot be decoded.
  unfoldable pub server_main : ServerCalls → List Query → Io (ℕ × List (List Response))
  server_main calls queries =
      if calls.bind == 0
      then (if calls.listen == 0
          then elim calls.accept [
            | none ↦ pure (1, [])
            | some connection ↦ (do
              sent ← serve to_double show_double fuel at_value fresh queries
              pure (2, sent))
          ]
          else pure (1, []))
      else pure (1, [])

-- The client is connected, has ended, or has read past its arguments.
pub data Started : Type 0 where
  connected : Started
  exited : ℕ → Started
  no_argument : Started

-- A wrong number of arguments is reported, and the client goes on with the first one.
unfoldable pub client_main : (List ℕ → ℕ) → (ℕ → ℕ) → List (List ℕ) → Started
client_main inet_addr connect v = elim (get_elem? v 1) [
  | none ↦ no_argument
  | some host ↦ if connect (inet_addr host) == 0 then connected else exited 1
]
