-- ===== src/Server.antt =====
-- server.c: the loop of `main` that sends the answer to a query, and the loop of `sendData` in
-- analyzer/main.y that prints what comes. The sockets and the coding of the messages are nanopb's.
pub mod Chunks
pub mod Loop
pub mod Serving
use llp_base.Common.{
  ℕ, zero, suc, List, [], ◌∷◌, ◌++◌, length, take, drop, ltb, ◌==◌, if◌then◌else◌, Option, none,
  some,
}
use llp_base.Message.{Response}

-- The most characters of one response: `strlen(res) > 1023` is the test of the loop.
abbrev pub chunk_size : ℕ
chunk_size = 1023

-- The responses that are sent for a text; `none` when the fuel runs out.
unfoldable pub send_response : ℕ → List ℕ → Option (List Response)
send_response zero res = none
send_response (suc fuel) res =
    let rest = send_response fuel (drop chunk_size res) in
    if ltb chunk_size (length res)
    then elim rest [
      | none ↦ none
      | some more ↦ some (record { r_string = take chunk_size res; last = 0 } ∷ more)
    ]
    else some (record { r_string = res; last = 1 } ∷ [])

-- What `sendData` prints of the responses that arrive; `none` when they end before the last one.
unfoldable pub receive_response : List Response → Option (List ℕ)
receive_response [] = none
receive_response (r ∷ rs) =
    let rest = receive_response rs in
    if r.last == 0
    then elim rest [ none ↦ none | some more ↦ some (r.r_string ++ more) ]
    else some r.r_string
