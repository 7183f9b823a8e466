-- ===== src/Socket.antt =====
-- analyzer/common.c: the callbacks by which nanopb reads and writes a socket.
use llp_base.Common.{
  ℕ, ◌^◌, ◌-◌, Option, none, some, Bool, true, false, List, [], length, take, ◌==◌, if◌then◌else◌,
}

-- A stream of nanopb over a descriptor: how many bytes it may still carry.
pub record Stream : Type 0 where
  pub state : ℕ
  pub bytes_left : ℕ

-- `send` and `recv` are calls of the operating system: how many bytes they carried and which, `none`
-- for -1.
module _ (send : ℕ → List ℕ → Option ℕ) (recv : ℕ → ℕ → Option (List ℕ)) where
  unfoldable pub write_callback : Stream → List ℕ → ℕ → Bool
  write_callback stream buf count = elim (send stream.state (take count buf)) [
    | none ↦ false
    | some sent ↦ sent == count
  ]

  -- Nothing is asked of the socket for no bytes; the end of the connection ends the stream.
  unfoldable pub read_callback : Stream → ℕ → Bool × Stream × List ℕ
  read_callback stream count =
      if count == 0 then (true, stream, []) else elim (recv stream.state count) [
        | none ↦ (false, stream, [])
        | some got ↦
            if length got == 0
            then (false, record stream { bytes_left = 0 }, [])
            else (length got == count, stream, got)
      ]

-- `SIZE_MAX` bytes.
unfoldable pub pb_ostream_from_socket : ℕ → Stream
pb_ostream_from_socket fd = record { state = fd; bytes_left = 2 ^ 64 - 1 }

unfoldable pub pb_istream_from_socket : ℕ → Stream
pb_istream_from_socket fd = record { state = fd; bytes_left = 2 ^ 64 - 1 }
