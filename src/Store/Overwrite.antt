-- ===== src/Store/Overwrite.antt =====
-- Writes inside a file: what they keep, and a word written over another.
use Prim.Native.Nat.add
use llp_base.Common.{
  ℕ, zero, suc, ◌+◌, ◌-◌, ◌*◌, ◌<◌, ◌≤◌, ◌≡◌, sym, ap, ◌∙◌, List, [], ◌∷◌, ◌++◌, length, take, drop,
  set, append_assoc, drop-append, length-to_le, length-take, to_le, words_to_le, ltb, le→ltb-false,
  arith, false, ◌==◌, ne→==-false,
}
use llp_base.OsFile.{World, ok, write_success, splice, write_file}
use llp_base.DataFile.Reading.{wrote}

-- A write behind the front of a file keeps the front.
pub splice_inside :
    (xs ys new : List ℕ) (k : ℕ) → splice (length xs + k) new (xs ++ ys) ≡ xs ++ splice k new ys
unfolding splice
splice_inside [] ys new k = ap (λ n. splice n new ys) {x = 0 + k} (omega arith)
splice_inside (x ∷ xs) ys new k = rw add.suc (ap (λ t. x ∷ t) (splice_inside xs ys new k))

pub drop-splice_before :
    (q p : ℕ) (new old : List ℕ)
    → q ≤ p
    → q ≤ length old
    → drop q (splice p new old) ≡ splice (p - q) new (drop q old)
unfolding splice
drop-splice_before zero p new old h k = ap (λ n. splice n new old) {y = p - 0} (omega arith)
drop-splice_before (suc q) zero new old h k = absurd (omega arith)
drop-splice_before (suc q) (suc p) new [] h k = absurd (omega arith)
drop-splice_before (suc q) (suc p) new (b ∷ old) h k =
    drop-splice_before q p new old (omega arith) (omega arith)
    ∙ ap (λ n. splice n new (drop q old)) {x = p - q} {y = suc p - suc q} (omega arith)

-- A word of an array in memory is overwritten.
pub splice-words :
    (values more : List ℕ) (f v : ℕ)
    → f < length values
    → splice (8 * f) (to_le 8 v) (words_to_le values ++ more) ≡ words_to_le (set values f v) ++ more
unfolding words_to_le splice
splice-words [] more f v h = absurd (omega arith)
splice-words (u ∷ us) more zero v h =
    ap (λ t. splice 0 (to_le 8 v) t) (append_assoc (to_le 8 u) (words_to_le us) more)
    ∙ ap (λ n. to_le 8 v ++ drop n (to_le 8 u ++ (words_to_le us ++ more)))
        (length-to_le 8 v ∙ sym (length-to_le 8 u))
    ∙ ap (λ t. to_le 8 v ++ t) (drop-append (to_le 8 u) (words_to_le us ++ more))
    ∙ sym (append_assoc (to_le 8 v) (words_to_le us) more)
splice-words (u ∷ us) more (suc f) v h =
    ap (λ t. splice (8 * suc f) (to_le 8 v) t) (append_assoc (to_le 8 u) (words_to_le us) more)
    ∙ ap (λ n. splice n (to_le 8 v) (to_le 8 u ++ (words_to_le us ++ more)))
        {y = length (to_le 8 u) + 8 * f} (omega (arith, length-to_le 8 u))
    ∙ splice_inside (to_le 8 u) (words_to_le us ++ more) (to_le 8 v) (8 * f)
    ∙ ap (λ t. to_le 8 u ++ t) (splice-words us more f v (omega arith))
    ∙ sym (append_assoc (to_le 8 u) (words_to_le (set us f v)) more)

-- A write of the front of a buffer.
pub write_file-take :
    (w : World) (buffer : List ℕ) (size : ℕ)
    → size ≤ length buffer
    → 0 < size
    → write_file buffer size w ≡ ok write_success (wrote w (take size buffer))
unfolding write_file
write_file-take w buffer size h p =
    let room : ltb (length buffer) size ≡ false = le→ltb-false _ _ h in
    let some_bytes : (size == 0) ≡ false = ne→==-false _ _ (λ e. omega (arith, e)) in
    rw (room, some_bytes)
      (ap
        (λ n.
          ok write_success
            (record w { bytes = splice w.pos (take size buffer) w.bytes; pos = w.pos + n }))
        (omega (arith, length-take {0} size buffer, h)))
