-- ===== src/OsFile/Laws.antt =====
-- What a read and a write of osFile.c do.
use Prim.Native.Nat.add
use llp_base.Common.{
  ℕ, zero, suc, ◌+◌, ◌-◌, ◌≤◌, ◌<◌, ◌≡◌, refl, sym, ap, ◌∙◌, List, [], ◌∷◌, ◌++◌, length, take,
  drop, arith, length-append, length-drop, take-append, drop-append, drop-nil, drop-drop, take_all,
  max,
}
use llp_base.OsFile.Stream.{World, ok, read_success, write_success, splice, read_file, write_file}

-- What stands at a position of a file after a write there.
pub drop-splice :
    (p : ℕ) (new old : List ℕ) → drop p (splice p new old) ≡ new ++ drop (p + length new) old
unfolding splice
drop-splice zero new old = ap (λ k. new ++ drop k old) {y = zero + length new} (omega arith)
drop-splice (suc p) new [] =
    drop-splice p new []
    ∙ ap (λ t. new ++ t) (drop-nil (p + length new) ∙ sym (drop-nil (suc p + length new)))
drop-splice (suc p) new (b ∷ old) =
    drop-splice p new old
    ∙ ap (λ k. new ++ drop k (b ∷ old)) {x = suc (p + length new)} {y = suc p + length new}
        (omega arith)

pub length-splice :
    (p : ℕ) (new old : List ℕ) → length (splice p new old) ≡ max (p + length new) (length old)
unfolding splice
length-splice zero new old =
    omega (arith, length-append {0} new (drop (length new) old), length-drop {0} (length new) old)
length-splice (suc p) new [] = omega (arith, length-splice p new [])
length-splice (suc p) new (b ∷ old) = omega (arith, length-splice p new old)

-- Writing nothing inside the file changes nothing.
pub splice-nil : (p : ℕ) (old : List ℕ) → p ≤ length old → splice p [] old ≡ old
unfolding splice
splice-nil zero old h = refl
splice-nil (suc p) [] h = absurd (omega arith)
splice-nil (suc p) (b ∷ old) h = ap (λ t. b ∷ t) (splice-nil p old (omega arith))

pub splice_behind :
    (xs ys zs : List ℕ) → splice (length xs) ys (xs ++ zs) ≡ xs ++ ys ++ drop (length ys) zs
unfolding splice
splice_behind [] ys zs = refl
splice_behind (x ∷ xs) ys zs = ap (λ t. x ∷ t) (splice_behind xs ys zs)

-- Two writes side by side are one.
pub splice-splice :
    (p : ℕ) (xs ys old : List ℕ)
    → splice (p + length xs) ys (splice p xs old) ≡ splice p (xs ++ ys) old
unfolding splice
splice-splice zero xs ys old =
    rw (add.zero, length-append, drop-drop) (splice_behind xs ys (drop (length xs) old))
splice-splice (suc p) xs ys [] = rw add.suc (ap (λ t. 0 ∷ t) (splice-splice p xs ys []))
splice-splice (suc p) xs ys (b ∷ old) = rw add.suc (ap (λ t. b ∷ t) (splice-splice p xs ys old))

-- A window before a write, or behind it, keeps its bytes.
pub window-splice_before :
    (q n p : ℕ) (new old : List ℕ)
    → q + n ≤ p
    → q + n ≤ length old
    → take n (drop q (splice p new old)) ≡ take n (drop q old)
unfolding splice
window-splice_before q zero p new old h k = refl
window-splice_before q (suc n) zero new old h k = absurd (omega arith)
window-splice_before q (suc n) (suc p) new [] h k = absurd (omega arith)
window-splice_before zero (suc n) (suc p) new (b ∷ old) h k =
    ap (λ t. b ∷ t) (window-splice_before zero n p new old (omega arith) (omega arith))
window-splice_before (suc q) (suc n) (suc p) new (b ∷ old) h k =
    window-splice_before q (suc n) p new old (omega arith) (omega arith)

pub drop-splice_after :
    (q p : ℕ) (new old : List ℕ)
    → p + length new ≤ q
    → p ≤ length old
    → drop q (splice p new old) ≡ drop q old
unfolding splice
drop-splice_after q zero new old h k =
    let e : q ≡ length new + (q - length new) = omega arith in
    ap (λ i. drop i (new ++ drop (length new) old)) e
    ∙ drop-drop (length new) (q - length new) (new ++ drop (length new) old)
    ∙ ap (drop (q - length new)) (drop-append new (drop (length new) old))
    ∙ sym (drop-drop (length new) (q - length new) old)
    ∙ ap (λ i. drop i old) (sym e)
drop-splice_after q (suc p) new [] h k = absurd (omega arith)
drop-splice_after zero (suc p) new (b ∷ old) h k = absurd (omega arith)
drop-splice_after (suc q) (suc p) new (b ∷ old) h k =
    drop-splice_after q p new old (omega arith) (omega arith)

pub window-splice_after :
    (q n p : ℕ) (new old : List ℕ)
    → p + length new ≤ q
    → p ≤ length old
    → take n (drop q (splice p new old)) ≡ take n (drop q old)
window-splice_after q n p new old h k = ap (take n) (drop-splice_after q p new old h k)

module _ (w : World) where
  -- A read that the file can serve returns its bytes and moves on.
  pub read_file-ok :
      (xs rest : List ℕ)
      → drop w.pos w.bytes ≡ xs ++ rest
      → 0 < length xs
      → read_file (length xs) w ≡ ok (read_success, xs) (record w { pos = w.pos + length xs })
  unfolding read_file
  read_file-ok xs rest h pos = rw (h, take-append) (ground arith)

  pub write_file-ok :
      (xs : List ℕ)
      → 0 < length xs
      → write_file xs (length xs) w
        ≡ ok write_success (record w { bytes = splice w.pos xs w.bytes; pos = w.pos + length xs })
  unfolding write_file
  write_file-ok xs pos = rw (take_all (length xs) xs (omega arith)) (ground arith)
