-- ===== src/Format/Decimal.antt =====
-- A number that is printed and read again.
use llp_base.Common.{
  ℕ, zero, suc, ◌+◌, ◌-◌, ◌*◌, ◌/◌, ◌%◌, ◌^◌, ◌<◌, ◌≤◌, ◌≡◌, refl, sym, ap, ◌∙◌, ◌⊎◌, some, true,
  false, inl, inr, List, [], ◌∷◌, ltb, ◌==◌, arith, lt→ltb, le→ltb-false, ne→==-false,
}
use native.Mathlib.Nat.{pow-suc}
use llp_base.Format.{digit, digits_before, decimal}
use llp_base.OsFile.{World, ok}
use llp_base.Commands.{digits, signed, strtol, atoi}
use llp_base.Text.{c_string, is_numeric}

pub digit-lt : (d : ℕ) → d < 10 → digit d ≡ suc (47 + d)
unfolding digit
digit-lt d h = ground arith

-- Reading a digit.
digits-digit :
    (d acc : ℕ) (tail : List ℕ) → d < 10 → digits acc (digit d ∷ tail) ≡ digits (acc * 10 + d) tail
unfolding digits
digits-digit d acc tail h =
    let low : ltb (suc (47 + d)) 48 ≡ false = le→ltb-false _ _ (omega arith) in
    let high : ltb 57 (suc (47 + d)) ≡ false = le→ltb-false _ _ (omega arith) in
    let value : suc (47 + d) - 48 ≡ d = omega arith in rw (digit-lt d h, low, high, value) refl

digits_first : (d : ℕ) (tail : List ℕ) → d < 10 → digits 0 (digit d ∷ tail) ≡ digits d tail
digits_first d tail h =
    digits-digit d 0 tail h ∙ ap (λ k. digits k tail) {x = 0 * 10 + d} (omega arith)

pub Small-cases : (n : ℕ) → (n < 10) ⊎ (10 ≤ n)
Small-cases n = omega arith

digits-digits_before :
    (fuel n : ℕ) (tail : List ℕ)
    → n < 10 ^ fuel
    → 0 < n
    → digits 0 (digits_before 10 fuel n tail) ≡ digits n tail
unfolding digits_before
digits-digits_before zero n tail h p = absurd (omega arith)
digits-digits_before (suc fuel) n tail h p = elim (Small-cases n) [
  | inl e ↦ rw (lt→ltb n 10 e) (digits_first n tail e)
  | inr e ↦
      let d : n % 10 < 10 = omega arith in
      let s : n / 10 * 10 + n % 10 ≡ n = omega arith in
      rw (le→ltb-false n 10 e) (
        digits-digits_before fuel (n / 10) (digit (n % 10) ∷ tail) (omega (arith, pow-suc 10 fuel))
          (omega arith)
        ∙ digits-digit (n % 10) (n / 10) tail d
        ∙ ap (λ k. digits k tail) s)
]

-- The first character of a printed number is a digit.
pub digits_before-head :
    (fuel n : ℕ) (tail : List ℕ)
    → n < 10 ^ fuel
    → 0 < fuel
    → (d : ℕ) × (rest : List ℕ) × (d < 10) × (digits_before 10 fuel n tail ≡ digit d ∷ rest)
unfolding digits_before
digits_before-head zero n tail h p = absurd (omega arith)
digits_before-head (suc zero) n tail h p =
    (n, tail, (omega arith), rw (lt→ltb n 10 (omega arith)) refl)
digits_before-head (suc (suc fuel)) n tail h p = elim (Small-cases n) [
  | inl e ↦ (n, tail, e, rw (lt→ltb n 10 e) refl)
  | inr e ↦
      let small : n / 10 < 10 ^ suc fuel = omega (arith, pow-suc 10 (suc fuel)) in
      let (d, rest, lt, eq) =
        digits_before-head (suc fuel) (n / 10) (digit (n % 10) ∷ tail) small (omega arith) in
      (d, rest, lt, rw (le→ltb-false n 10 e) eq)
]

signed-digit :
    (d : ℕ) (rest : List ℕ) → d < 10 → signed (digit d ∷ rest) ≡ (false, digits 0 (digit d ∷ rest))
unfolding signed
signed-digit d rest h =
    let space : (suc (47 + d) == 32) ≡ false = ne→==-false _ _ (λ e. omega (arith, e)) in
    let control : ltb (suc (47 + d)) 14 ≡ false = le→ltb-false _ _ (omega arith) in
    let minus : (suc (47 + d) == 45) ≡ false = ne→==-false _ _ (λ e. omega (arith, e)) in
    let plus : (suc (47 + d) == 43) ≡ false = ne→==-false _ _ (λ e. omega (arith, e)) in
    let above : ltb 8 (suc (47 + d)) ≡ true = lt→ltb _ _ (omega arith) in
    rw (digit-lt d h, space, control, above, minus, plus) refl

signed-decimal : (n : ℕ) → n < 2 ^ 64 → signed (decimal n) ≡ (false, n)
unfolding decimal digits
signed-decimal zero h =
    signed-digit 0 [] (omega arith) ∙ ap (λ k. (false, k)) (digits_first 0 [] (omega arith))
signed-decimal (suc n) h =
    let (d, rest, lt, eq) = digits_before-head 20 (suc n) [] (omega arith) (omega arith) in
    ap signed eq
    ∙ signed-digit d rest lt
    ∙ ap (λ t. (false, digits 0 t)) (sym eq)
    ∙ ap (λ k. (false, k)) (digits-digits_before 20 (suc n) [] (omega arith) (omega arith))

is_numeric-digit :
    (d : ℕ) (tail : List ℕ)
    → d < 10
    → is_numeric (c_string tail) ≡ some true
    → is_numeric (c_string (digit d ∷ tail)) ≡ some true
unfolding is_numeric
is_numeric-digit d tail h k =
    let return : (suc (47 + d) == 13) ≡ false = ne→==-false _ _ (λ e. omega (arith, e)) in
    let low : ltb (suc (47 + d)) 48 ≡ false = le→ltb-false _ _ (omega arith) in
    let high : ltb 57 (suc (47 + d)) ≡ false = le→ltb-false _ _ (omega arith) in
    rw (digit-lt d h, return, low, high) k

is_numeric-digits_before :
    (fuel n : ℕ) (tail : List ℕ)
    → is_numeric (c_string tail) ≡ some true
    → is_numeric (c_string (digits_before 10 fuel n tail)) ≡ some true
unfolding digits_before
is_numeric-digits_before zero n tail h = h
is_numeric-digits_before (suc fuel) n tail h = elim (Small-cases n) [
  | inl e ↦ rw (lt→ltb n 10 e) (is_numeric-digit n tail e h)
  | inr e ↦ rw (le→ltb-false n 10 e) (
      is_numeric-digits_before fuel (n / 10) (digit (n % 10) ∷ tail)
        (is_numeric-digit (n % 10) tail (omega arith) h))
]

pub is_numeric-decimal : (n : ℕ) → is_numeric (c_string (decimal n)) ≡ some true
unfolding decimal is_numeric
is_numeric-decimal n = is_numeric-digits_before 20 n [] refl

pub atoi-decimal : (n : ℕ) (w : World) → n < 2 ^ 31 → atoi (decimal n) w ≡ ok n w
unfolding atoi
atoi-decimal n w h = rw (signed-decimal n (omega arith), lt→ltb n (2 ^ 31) h) refl

pub strtol-decimal :
    (n : ℕ)
    → n < 2 ^ 63
    → (strtol (decimal n) ≡ n) × (is_numeric (c_string (decimal n)) ≡ some true)
unfolding strtol
strtol-decimal n h = (rw (signed-decimal n (omega arith)) (omega arith), is_numeric-decimal n)
