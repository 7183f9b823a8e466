-- ===== src/Client/Lexer/Patterns.antt =====
-- analyzer/rules.lex: the rules with patterns on words, integers and floats.
use llp_base.Common.{
  ℕ, suc, ◌<◌, ◌≤◌, ◌⊎◌, ◌≡◌, refl, some, Bool, true, false, not, List, [], ◌∷◌, ◌++◌, length, ◌==◌,
  arith, Bool-cases, inl, inr, le→leb, lt→leb-false,
}
use llp_base.Client.Lexer.{
  string, float, int, word, point_number, number, blank, any_character, is_digit, is_letter,
  is_word_character, span, word_length, signed_length, fraction_length, point_length, matched,
  first_best, pattern_rules,
}
use llp_base.Client.Lexer.Spelling.{all, is_apart}
use llp_base.Client.Lexer.Words.{and-true}

abbrev pub stops : (ℕ → Bool) → List ℕ → Bool
stops p [] = true
stops p (c ∷ s) = not (p c)

pub span-append :
    (p : ℕ → Bool) (s rest : List ℕ)
    → all p s ≡ true
    → stops p rest ≡ true
    → span p (s ++ rest) ≡ length s
unfolding span
span-append p [] [] h a = refl
span-append p [] (c ∷ rest) h a = elim (Bool-cases (p c)) [ inl e ↦ cc | inr e ↦ rw e refl ]
span-append p (c ∷ s) rest h a =
    let (x, y) = and-true (p c) (all p s) h in rw (x, span-append p s rest y a) refl

pub apart-stops :
    (rest : List ℕ)
    → is_apart rest ≡ true
    → (stops is_digit rest ≡ true) × (stops is_word_character rest ≡ true)
apart-stops [] a = (refl, refl)
apart-stops (c ∷ rest) a = (ground arith, ground arith)

-- A word's characters stand in no number.
letter_lem :
    (c : ℕ)
    → is_letter c ≡ true
    → (is_digit c ≡ false)
      × ((c == b'-') ≡ false)
      × ((c == b'.') ≡ false)
      × ((c == 32) ≡ false)
      × ((c == 9) ≡ false)
      × ((c == 10) ≡ false)
letter_lem c h =
    (ground arith, ground arith, ground arith, ground arith, ground arith, ground arith)

Small-cases : (n : ℕ) → (n ≡ 0) ⊎ (0 < n)
Small-cases n = omega arith

module _ (strtod atoi : List ℕ → ℕ) where
  pub first_best-word :
      (c : ℕ) (s rest : List ℕ)
      → is_letter c ≡ true
      → all is_word_character s ≡ true
      → is_apart rest ≡ true
      → first_best (pattern_rules strtod atoi) (c ∷ (s ++ rest))
        ≡ (suc (length s), (λ t. some (string t)))
  unfolding first_best matched word_length signed_length point_length fraction_length span
  first_best-word c s rest h k a =
      let (d, m, p, b, t, n) = letter_lem c h in
      let w = span-append is_word_character s rest k (apart-stops rest a).1 in
      rw (h, d, m, p, b, t, n, w) (rw (le→leb 1 (suc (length s)) (omega arith)) refl)

  module _ (t : List ℕ) (m n : ℕ) (w : matched word t ≡ 0) (p : matched point_number t ≡ m)
      (d : matched number t ≡ n) (b : matched blank t ≡ 0) (a : matched any_character t ≡ 1) where
    pub first_best-number :
        m ≡ 0 → 0 < n → first_best (pattern_rules strtod atoi) t ≡ (n, (λ s. some (int (atoi s))))
    unfolding first_best
    first_best-number e l =
        rw (w, p, d, b, a, e)
          (rw (le→leb 1 n l) (rw (lt→leb-false n 0 l) (rw (lt→leb-false n 0 l) refl)))

    pub first_best-point :
        n ≤ m
        → 0 < m
        → first_best (pattern_rules strtod atoi) t ≡ (m, (λ s. some (float (strtod s))))
    unfolding first_best
    first_best-point e l =
        rw (w, p, d, b, a)
          (elim (Small-cases n) [
            | inl z ↦ rw z (rw (le→leb 1 m l) (rw (lt→leb-false m 0 l) refl))
            | inr z ↦ rw (le→leb 1 n z) (rw (le→leb n m e) (rw (lt→leb-false m 0 l) refl))
          ])
