-- ===== src/Format.antt =====
-- The conversions of `printf` that the program uses: `%lu`, `%lx`, `%s` and their widths.
pub mod Decimal
use llp_base.Common.{
  ℕ, zero, suc, ◌+◌, ◌-◌, ◌/◌, ◌%◌, ◌*◌, List, [], ◌∷◌, ◌++◌, length, replicate, ltb, if◌then◌else◌,
}

-- A digit, from 10 on a letter.
unfoldable pub digit : ℕ → ℕ
digit d = if ltb d 10 then b'0' + d else b'a' + (d - 10)

-- The digits of a number to a base, before those of `tail`; fuel of as many rounds as the number has
-- digits is enough.
unfoldable pub digits_before : ℕ → ℕ → ℕ → List ℕ → List ℕ
digits_before base zero n tail = tail
digits_before base (suc fuel) n tail =
    let rest = digits_before base fuel (n / base) (digit (n % base) ∷ tail) in
    if ltb n base then digit n ∷ tail else rest

-- `%lu` of a `uint64_t`, which has at most 20 digits.
unfoldable pub decimal : ℕ → List ℕ
unfolding digits_before
decimal n = digits_before 10 20 n []

-- `%lx`, of at most 16 digits.
unfoldable pub hexadecimal : ℕ → List ℕ
unfolding digits_before
hexadecimal n = digits_before 16 16 n []

-- `%ld` and `%d` of an unsigned number: from `half` its range on it is read as a negative number.
unfoldable pub signed_decimal : ℕ → ℕ → List ℕ
unfolding decimal
signed_decimal half n = if ltb n half then decimal n else b'-' ∷ decimal (2 * half - n)

-- A width, with spaces before the text, and with a minus, behind it.
unfoldable pub pad_left : ℕ → List ℕ → List ℕ
pad_left width text = replicate (width - length text) 32 ++ text

unfoldable pub pad_right : ℕ → List ℕ → List ℕ
pad_right width text = text ++ replicate (width - length text) 32
