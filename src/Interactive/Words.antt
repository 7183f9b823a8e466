-- ===== src/Interactive/Words.antt =====
-- Words that `scanf` reads, and numbers among them.
use llp_base.Common.{
  ℕ, zero, suc, ◌+◌, ◌%◌, ◌/◌, ◌<◌, ◌≤◌, ◌≡◌, refl, sym, ap, ◌∙◌, Option, some, false, List, [],
  ◌∷◌, ◌++◌, length, arith, lt→ltb, le→ltb-false, inl, inr,
}
use llp_base.OsFile.{World, ok}
use llp_base.Format.{digit, digits_before, decimal}
use llp_base.Format.Decimal.{digit-lt, Small-cases}
use llp_base.Commands.{is_space}
use llp_base.Interactive.Setup.{take_word, scan_word, read_word}

-- No space in it.
abbrev NoSpaces : List ℕ → Type 0
NoSpaces [] = Unit {0}
NoSpaces (c ∷ cs) = (is_space c ≡ false) × NoSpaces cs

-- A word that `scanf` can read.
abbrev pub IsWord : List ℕ → Type 0
IsWord [] = ⊥
IsWord (c ∷ cs) = NoSpaces (c ∷ cs)

-- Words, each behind a line feed, and then a line feed and the rest of the input.
abbrev pub typed : List (List ℕ) → List ℕ → List ℕ
typed [] rest = 10 ∷ rest
typed (word ∷ words) rest = 10 ∷ word ++ typed words rest

typed-head :
    (words : List (List ℕ)) (rest : List ℕ) → (tail : List ℕ) × (typed words rest ≡ 10 ∷ tail)
typed-head [] rest = (rest, refl)
typed-head (word ∷ words) rest = (word ++ typed words rest, refl)

take_word-word :
    (word tail : List ℕ) → NoSpaces word → take_word (word ++ 10 ∷ tail) ≡ (word, 10 ∷ tail)
unfolding take_word
take_word-word [] tail h = refl
take_word-word (c ∷ word) tail h = rw (h.0, take_word-word word tail h.1) refl

scan_word-word :
    (word tail : List ℕ) → IsWord word → scan_word (word ++ 10 ∷ tail) ≡ (some word, 10 ∷ tail)
unfolding scan_word
scan_word-word [] tail h = absurd h
scan_word-word (c ∷ word) tail h = rw (h.0, take_word-word word tail h.1) refl

scan_word-next :
    (word tail : List ℕ) → IsWord word → scan_word (10 ∷ word ++ 10 ∷ tail) ≡ (some word, 10 ∷ tail)
unfolding scan_word
scan_word-next word tail h = scan_word-word word tail h

-- A word that fits its buffer.
read_word-scanned :
    (old : Option (List ℕ)) (input word tail : List ℕ) (w : World)
    → scan_word input ≡ (some word, tail)
    → length word < w.usable 1024
    → read_word old input w ≡ ok (some word, tail) w
unfolding read_word
read_word-scanned old input word tail w e fits =
    let fit = lt→ltb (length word) (w.usable 1024) fits in
    rw (e, read_word, fit) (ap (λ (p : Option (List ℕ) × List ℕ). ok (some word, p.1) w) e)

-- A word in front of others, and one that follows another.
pub read_word-first :
    (old : Option (List ℕ)) (word : List ℕ) (words : List (List ℕ)) (rest : List ℕ) (w : World)
    → IsWord word
    → length word < w.usable 1024
    → read_word old (word ++ typed words rest) w ≡ ok (some word, typed words rest) w
read_word-first old word words rest w h fits =
    let (tail, e) = typed-head words rest in
    read_word-scanned old _ word (typed words rest) w
      (ap (λ t. scan_word (word ++ t)) e
        ∙ scan_word-word word tail h
        ∙ ap (λ (t : List ℕ). (some word, t)) (sym e))
      fits

pub read_word-typed :
    (old : Option (List ℕ)) (word : List ℕ) (words : List (List ℕ)) (rest : List ℕ) (w : World)
    → IsWord word
    → length word < w.usable 1024
    → read_word old (typed (word ∷ words) rest) w ≡ ok (some word, typed words rest) w
unfolding scan_word read_word
read_word-typed old word words rest w h fits = read_word-first old word words rest w h fits

-- Printed numbers are words.
digit-NoSpaces : (d : ℕ) → d < 10 → is_space (digit d) ≡ false
digit-NoSpaces d h = rw (digit-lt d h) (ground arith)

length-digits_before :
    (fuel n : ℕ) (tail : List ℕ) → length (digits_before 10 fuel n tail) ≤ fuel + length tail
unfolding digits_before
length-digits_before zero n tail = omega arith
length-digits_before (suc fuel) n tail = elim (Small-cases n) [
  | inl e ↦ rw (lt→ltb n 10 e) (omega arith)
  | inr e ↦
      rw (le→ltb-false n 10 e)
        (omega (arith, length-digits_before fuel (n / 10) (digit (n % 10) ∷ tail)))
]

IsWord-NoSpaces : (word : List ℕ) → IsWord word → NoSpaces word
IsWord-NoSpaces [] h = absurd h
IsWord-NoSpaces (c ∷ word) h = h

digits_before-IsWord :
    (fuel n : ℕ) (tail : List ℕ) → IsWord tail → IsWord (digits_before 10 fuel n tail)
unfolding digits_before
digits_before-IsWord zero n tail h = h
digits_before-IsWord (suc fuel) n tail h = elim (Small-cases n) [
  | inl e ↦ rw (lt→ltb n 10 e) (digit-NoSpaces n e, IsWord-NoSpaces tail h)
  | inr e ↦ rw (le→ltb-false n 10 e) (
      digits_before-IsWord fuel (n / 10) (digit (n % 10) ∷ tail)
        (digit-NoSpaces (n % 10) (omega arith), IsWord-NoSpaces tail h))
]

first-IsWord : (fuel n : ℕ) → IsWord (digits_before 10 (suc fuel) n [])
unfolding digits_before
first-IsWord fuel n = elim (Small-cases n) [
  | inl e ↦ rw (lt→ltb n 10 e) (digit-NoSpaces n e, tt)
  | inr e ↦ rw (le→ltb-false n 10 e) (
      digits_before-IsWord fuel (n / 10) (digit (n % 10) ∷ [])
        (digit-NoSpaces (n % 10) (omega arith), tt))
]

pub decimal-IsWord : (n : ℕ) → IsWord (decimal n)
unfolding decimal
decimal-IsWord n = first-IsWord 19 n

pub length-decimal_le : (n : ℕ) → length (decimal n) ≤ 20
unfolding decimal
length-decimal_le n = omega (arith, length-digits_before 20 n [])
