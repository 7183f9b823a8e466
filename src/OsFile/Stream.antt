-- ===== src/OsFile/Stream.antt =====
-- osFile.c, and the calls of the C library that it and its callers make.
use llp_base.Common.{
  ℕ, zero, suc, ◌+◌, ◌^◌, List, [], ◌∷◌, ◌++◌, length, take, drop, replicate, ltb, ◌==◌,
  if◌then◌else◌, ◌||◌, ◌-◌,
}

-- `usable n` is how many bytes of a block that `malloc(n)` returned may be used.
pub record World : Type 0 where
  pub bytes : List ℕ
  pub pos : ℕ
  pub usable : ℕ → ℕ

-- `fault` is what C leaves undefined: an access outside a block, or a use of what was never set.
pub data Run (A : Type 0) : Type 0 where
  ok : A → World → Run A
  fault : Run A
  out_of_fuel : Run A

abbrev pub Io : Type 0 → Type 0
Io A = World → Run A

abbrev pub pure : {A : Type 0} → A → Io A
pure = ok

abbrev pub undefined : {A : Type 0} → Io A
undefined w = fault

abbrev pub no_fuel : {A : Type 0} → Io A
no_fuel w = out_of_fuel

module _ {A B : Type 0} where
  abbrev pub and_then : Run A → (A → Io B) → Run B
  and_then (ok a w) k = k a w
  and_then fault k = fault
  and_then out_of_fuel k = out_of_fuel

  infixl 5 ◌>>=◌ ◌>>◌
  abbrev pub ◌>>=◌ : Io A → (A → Io B) → Io B
  m >>= k = λ w. and_then (m w) k

  abbrev pub ◌>>◌ : Io A → Io B → Io B
  m >> n = m >>= λ _. n

pub data ReadStatus : Type 0 where
  read_success read_unexpected_eof read_len_error read_fail : ReadStatus

pub data WriteStatus : Type 0 where
  write_success write_len_error write_unexpected_eof write_fail : WriteStatus

-- `ret |= status`, on the numbers 0 to 3 that the statuses are.
abbrev pub or_read : ReadStatus → ReadStatus → ReadStatus
or_read read_success s = s
or_read read_unexpected_eof read_success = read_unexpected_eof
or_read read_unexpected_eof read_unexpected_eof = read_unexpected_eof
or_read read_unexpected_eof _ = read_fail
or_read read_len_error read_success = read_len_error
or_read read_len_error read_len_error = read_len_error
or_read read_len_error _ = read_fail
or_read read_fail _ = read_fail

abbrev pub or_write : WriteStatus → WriteStatus → WriteStatus
or_write write_success s = s
or_write write_len_error write_success = write_len_error
or_write write_len_error write_len_error = write_len_error
or_write write_len_error _ = write_fail
or_write write_unexpected_eof write_success = write_unexpected_eof
or_write write_unexpected_eof write_unexpected_eof = write_unexpected_eof
or_write write_unexpected_eof _ = write_fail
or_write write_fail _ = write_fail

-- A write at a position: a gap before it is filled with zeros, what it covers is replaced.
unfoldable pub splice : ℕ → List ℕ → List ℕ → List ℕ
splice zero new old = new ++ drop (length new) old
splice (suc p) new [] = 0 ∷ splice p new []
splice (suc p) new (b ∷ old) = b ∷ splice p new old

-- The file cut, or filled up with zeros, to `n` bytes.
unfoldable pub resize : ℕ → List ℕ → List ℕ
resize n bs = take n bs ++ replicate (n - length bs) 0

-- `fseek(fp, offset, SEEK_SET)`; as a `long` an offset from 2^63 on is negative, and refused.
unfoldable pub seek_set : ℕ → Io (Unit {0})
seek_set offset w = if ltb offset (2 ^ 63) then ok tt (record w { pos = offset }) else ok tt w

-- `fseek(fp, offset, SEEK_END)` for an offset that is not negative.
unfoldable pub seek_end : ℕ → Io (Unit {0})
seek_end offset w = ok tt (record w { pos = length w.bytes + offset })

abbrev pub tell : Io ℕ
tell w = ok w.pos w

-- `ftruncate(fileno(fp), size)`; the stream stays where it is.
unfoldable pub ftruncate : ℕ → Io (Unit {0})
ftruncate size w = ok tt (record w { bytes = resize size w.bytes })

-- `malloc_usable_size` of a block of `n` bytes.
abbrev pub usable_size : ℕ → Io ℕ
usable_size n w = ok (w.usable n) w

-- `fread(buffer, size, 1, fp)`: the number of items read, and the bytes that reached the buffer.
unfoldable pub fread : ℕ → Io (ℕ × List ℕ)
fread size w =
    let got = take size (drop w.pos w.bytes) in
    ok (if (size == 0) || ltb (length got) size then 0 else 1, got)
      (record w { pos = w.pos + length got })

-- `fwrite(buffer, size, 1, fp)`; `buffer` is what of the block is set.
unfoldable pub fwrite : List ℕ → ℕ → Io ℕ
fwrite buffer size w =
    if ltb (length buffer) size
    then fault
    else ok (if size == 0 then 0 else 1)
        (record w { bytes = splice w.pos (take size buffer) w.bytes; pos = w.pos + size })

-- `sizeof(buffer)` is that of a pointer.
read_status : ℕ → ReadStatus
read_status len =
    if ltb len 1 then read_len_error else if ltb 8 len then read_unexpected_eof else read_success

write_status : ℕ → WriteStatus
write_status len =
    if ltb len 1 then write_len_error else if ltb 8 len then write_unexpected_eof else write_success

unfoldable pub read_file : ℕ → Io (ReadStatus × List ℕ)
unfolding fread read_status
read_file size = do (len, got) ← fread size; pure (read_status len, got)

unfoldable pub write_file : List ℕ → ℕ → Io WriteStatus
unfolding fwrite write_status
write_file buffer size = do len ← fwrite buffer size; pure (write_status len)
