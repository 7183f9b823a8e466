-- ===== src/Client/Lexer/Numbers.antt =====
-- analyzer/rules.lex: the longest matches of integers and floats.
use llp_base.Common.{
  ℕ, suc, ◌+◌, ◌<◌, ◌≤◌, ◌≡◌, refl, ◌∙◌, some, Bool, true, false, List, [], ◌∷◌, ◌++◌, length, ◌||◌,
  ◌==◌, arith, length-append, drop-append, lt→ltb, ne→==-false, append_assoc,
}
use llp_base.Client.Lexer.{
  float, int, word, point_number, number, blank, any_character, is_digit, is_letter, span,
  word_length, signed_length, fraction_length, point_length, matched, first_best, pattern_rules,
}
use llp_base.Client.Lexer.Spelling.{all, is_apart, minus}
use llp_base.Client.Lexer.Words.{and-true}
use llp_base.Client.Lexer.Patterns.{span-append, apart-stops, first_best-number, first_best-point}

abbrev pub starts_number : ℕ → Bool
starts_number c = is_digit c || (c == b'.')

start_lem :
    (c : ℕ)
    → starts_number c ≡ true
    → (is_letter c ≡ false)
      × ((c == b'-') ≡ false)
      × ((c == 32) ≡ false)
      × ((c == 9) ≡ false)
      × ((c == 10) ≡ false)
start_lem c h = (ground arith, ground arith, ground arith, ground arith, ground arith)

abbrev pub sign_length : Bool → ℕ
sign_length true = 1
sign_length false = 0

length-minus :
    (negative : Bool) (s : List ℕ) → length (minus negative s) ≡ sign_length negative + length s
length-minus true s = omega arith
length-minus false s = omega arith

module _ (c : ℕ) (u : List ℕ) (h : starts_number c ≡ true) where
  start-matched :
      (negative : Bool)
      → (matched word (minus negative (c ∷ u)) ≡ 0)
        × (matched blank (minus negative (c ∷ u)) ≡ 0)
        × (matched any_character (minus negative (c ∷ u)) ≡ 1)
  unfolding matched word_length
  start-matched true = (refl, refl, refl)
  start-matched false =
      let (l, m, b, t, n) = start_lem c h in (rw l refl, rw (b, t, n) refl, rw n refl)

  signed_length-some :
      (negative : Bool) (f : List ℕ → ℕ)
      → 0 < f (c ∷ u)
      → signed_length f (minus negative (c ∷ u)) ≡ sign_length negative + f (c ∷ u)
  unfolding signed_length
  signed_length-some true f p = rw (ne→==-false (f (c ∷ u)) 0 (λ e. omega arith)) (omega arith)
  signed_length-some false f p = let (l, m, b, t, n) = start_lem c h in rw m (omega arith)

  signed_length-le :
      (negative : Bool) (f : List ℕ → ℕ)
      → signed_length f (minus negative (c ∷ u)) ≤ sign_length negative + f (c ∷ u)
  unfolding signed_length
  signed_length-le true f = ground arith
  signed_length-le false f = let (l, m, b, t, n) = start_lem c h in rw m (omega arith)

  signed_length-zero :
      (negative : Bool) (f : List ℕ → ℕ)
      → f (c ∷ u) ≡ 0
      → signed_length f (minus negative (c ∷ u)) ≡ 0
  unfolding signed_length
  signed_length-zero true f e = rw e refl
  signed_length-zero false f e = let (l, m, b, t, n) = start_lem c h in rw (m, e) refl

fraction_length-apart : (n : ℕ) (rest : List ℕ) → is_apart rest ≡ true → fraction_length n rest ≡ 0
unfolding fraction_length
fraction_length-apart n [] a = refl
fraction_length-apart n (c ∷ rest) a = ground arith

module _ (s rest : List ℕ) (d : all is_digit s ≡ true) where
  point_length-int : is_apart rest ≡ true → point_length (s ++ rest) ≡ 0
  unfolding point_length
  point_length-int a =
      rw (span-append is_digit s rest d (apart-stops rest a).0, drop-append s rest)
        (fraction_length-apart (length s) rest a)

  point_length-float :
      (t : List ℕ)
      → all is_digit t ≡ true
      → 0 < length t
      → is_apart rest ≡ true
      → point_length (s ++ (b'.' ∷ (t ++ rest))) ≡ length s + 1 + length t
  unfolding point_length fraction_length
  point_length-float t e l a =
      rw
        (
          span-append is_digit s (b'.' ∷ (t ++ rest)) d refl,
          drop-append s (b'.' ∷ (t ++ rest)),
          span-append is_digit t rest e (apart-stops rest a).0,
          lt→ltb 0 (length t) l,
        )
        refl

minus-append :
    (negative : Bool) (s rest : List ℕ) → minus negative s ++ rest ≡ minus negative (s ++ rest)
minus-append true s rest = refl
minus-append false s rest = refl

module _ (strtod atoi : List ℕ → ℕ) where
  pub first_best-int :
      (negative : Bool) (s rest : List ℕ)
      → 0 < length s
      → all is_digit s ≡ true
      → is_apart rest ≡ true
      → first_best (pattern_rules strtod atoi) (minus negative s ++ rest)
        ≡ (length (minus negative s), (λ t. some (int (atoi t))))
  first_best-int negative [] rest l d a = absurd (omega arith)
  first_best-int negative (c ∷ s) rest l d a =
      let c-digit = (and-true (is_digit c) (all is_digit s) d).0 in
      let start : starts_number c ≡ true = rw c-digit refl in
      let all-digits : span is_digit (c ∷ (s ++ rest)) ≡ suc (length s) =
        span-append is_digit (c ∷ s) rest d (apart-stops rest a).0 in
      let (w, b, n) = start-matched c (s ++ rest) start negative in
      let point : matched point_number (minus negative (c ∷ (s ++ rest))) ≡ 0 =
        unfold matched in
        signed_length-zero c (s ++ rest) start negative point_length
          (point_length-int (c ∷ s) rest d a) in
      let number_lem : matched number (minus negative (c ∷ (s ++ rest)))
          ≡ length (minus negative (c ∷ s)) =
        unfold matched in
        signed_length-some c (s ++ rest) start negative (span is_digit) (omega arith)
        ∙ omega (arith, length-minus negative (c ∷ s)) in
      rw (minus-append negative (c ∷ s) rest) (
        first_best-number strtod atoi _ _ _ w point number_lem b n refl
          (omega (arith, length-minus negative (c ∷ s))))

  first_best-signed :
      (negative : Bool) (c : ℕ) (u : List ℕ) (n : ℕ)
      → starts_number c ≡ true
      → point_length (c ∷ u) ≡ n
      → span is_digit (c ∷ u) ≤ n
      → 0 < n
      → first_best (pattern_rules strtod atoi) (minus negative (c ∷ u))
        ≡ (sign_length negative + n, (λ t. some (float (strtod t))))
  first_best-signed negative c u n start p d l =
      let (w, b, a) = start-matched c u start negative in
      let point : matched point_number (minus negative (c ∷ u)) ≡ sign_length negative + n =
        unfold matched in
        signed_length-some c u start negative point_length (omega arith) ∙ omega (arith, p) in
      let shorter : matched number (minus negative (c ∷ u)) ≤ sign_length negative + n =
        unfold matched in omega (arith, signed_length-le c u start negative (span is_digit)) in
      first_best-point strtod atoi _ _ _ w point refl b a shorter (omega arith)

  pub first_best-float :
      (negative : Bool) (s t rest : List ℕ)
      → all is_digit s ≡ true
      → 0 < length t
      → all is_digit t ≡ true
      → is_apart rest ≡ true
      → first_best (pattern_rules strtod atoi) (minus negative (s ++ (b'.' ∷ t)) ++ rest)
        ≡ (length (minus negative (s ++ (b'.' ∷ t))), (λ u. some (float (strtod u))))
  first_best-float negative s t rest d l e a =
      let n : length s + 1 + length t ≡ length (s ++ (b'.' ∷ t)) =
        omega (arith, length-append s (b'.' ∷ t)) in
      let m : length (minus negative (s ++ (b'.' ∷ t)))
          ≡ sign_length negative + (length s + 1 + length t) =
        length-minus negative (s ++ (b'.' ∷ t)) ∙ omega (arith, n) in
      rw (minus-append negative (s ++ (b'.' ∷ t)) rest, append_assoc s (b'.' ∷ t) rest, m)
        (float_of s d (point_length-float s rest d t e l a)
          (span-append is_digit s (b'.' ∷ (t ++ rest)) d refl))
    where
      float_of :
          (s : List ℕ)
          → all is_digit s ≡ true
          → point_length (s ++ (b'.' ∷ (t ++ rest))) ≡ length s + 1 + length t
          → span is_digit (s ++ (b'.' ∷ (t ++ rest))) ≡ length s
          → first_best (pattern_rules strtod atoi) (minus negative (s ++ (b'.' ∷ (t ++ rest))))
            ≡ (sign_length negative + (length s + 1 + length t), (λ u. some (float (strtod u))))
      float_of [] d p q =
          first_best-signed negative b'.' (t ++ rest) (1 + length t) refl p (omega arith)
            (omega arith)
      float_of (c ∷ s') d p q =
          let c-digit = (and-true (is_digit c) (all is_digit s') d).0 in
          first_best-signed negative c (s' ++ (b'.' ∷ (t ++ rest))) (suc (length s') + 1 + length t)
            (rw c-digit refl) p (omega (arith, q)) (omega arith)
