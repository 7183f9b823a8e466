-- ===== src/Commands/Numbers.antt =====
-- Numbers in the arguments of a command: `strtol` and `atoi`, as `uint64_t`.
use llp_base.Common.{
  ℕ, ◌+◌, ◌-◌, ◌*◌, ◌^◌, Bool, true, false, List, [], ◌∷◌, ltb, ◌==◌, ◌||◌, ◌&&◌, not, u64,
  if◌then◌else◌, min,
}
use llp_base.OsFile.{Io, pure, undefined}

abbrev pub is_space : ℕ → Bool
is_space c = (c == 32) || ltb 8 c && ltb c 14

abbrev is_digit : ℕ → Bool
is_digit c = not (ltb c b'0' || ltb b'9' c)

unfoldable pub digits : ℕ → List ℕ → ℕ
digits n [] = n
digits n (c ∷ cs) = let rest = digits (n * 10 + (c - b'0')) cs in if is_digit c then rest else n

-- Whether there is a minus, and the number behind the sign.
unfoldable pub signed : List ℕ → Bool × ℕ
unfolding digits
signed [] = (false, 0)
signed (c ∷ cs) =
    let rest = signed cs in
    if is_space c
    then rest
    else if c == b'-'
    then (true, digits 0 cs)
    else if c == b'+'
    then (false, digits 0 cs)
    else (false, digits 0 (c ∷ cs))

-- `strtol(s, NULL, 10)` stops at the ends of `long`.
unfoldable pub strtol : List ℕ → ℕ
unfolding signed
strtol s =
    let (minus, n) = signed s in if minus then u64 (2 ^ 64 - min n (2 ^ 63)) else min n (2 ^ 63 - 1)

-- `atoi(s)`, which is defined where the number is an `int`.
unfoldable pub atoi : List ℕ → Io ℕ
unfolding signed
atoi s =
    let (minus, n) = signed s in
    if minus
    then if ltb (2 ^ 31) n then undefined else pure (u64 (2 ^ 64 - n))
    else if ltb n (2 ^ 31)
    then pure n
    else undefined
