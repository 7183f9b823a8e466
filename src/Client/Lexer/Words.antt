-- ===== src/Client/Lexer/Words.antt =====
-- analyzer/rules.lex: the literal rules, which stand in front of the patterns, on a word.
use llp_base.Common.{
  ℕ, suc, ◌<◌, ◌≡◌, refl, ap, ◌∙◌, sym, none, some, Bool, true, false, ◌&&◌, ◌||◌, not, List, [],
  ◌∷◌, ◌++◌, map, length, ◌==◌, if◌then◌else◌, arith, Bool-cases, inl, inr, ne→==-false, le→leb,
  lt→leb-false,
}
use llp_base.Client.Lexer.{
  Token, Rule, Action, is_word_character, is_digit, is_prefix, literal, matched, keyword_rule,
  first_best,
}
use llp_base.Client.Lexer.Spelling.{equal_texts, lookup, all, is_separator, is_apart, minus}

abbrev pub is_body : ℕ → Bool
is_body c = is_word_character c || (c == b'.')

-- What the literals have in common: all but the first character could stand in a word or a number.
abbrev pub is_literal : List ℕ → Bool
is_literal [] = false
is_literal (c ∷ s) = all is_body s

abbrev pub are_literals : List (List ℕ × Token) → Bool
are_literals [] = true
are_literals ((k, token) ∷ ks) = is_literal k && are_literals ks

pub and-true : (a b : Bool) → (a && b) ≡ true → (a ≡ true) × (b ≡ true)
and-true true b h = (refl, h)
and-true false b h = cc

separator-body : (c d : ℕ) → is_body c ≡ true → is_separator d ≡ true → (c == d) ≡ false
separator-body c d h k =
    ne→==-false c d
      (λ e. (let clash : not (is_body d) ≡ false = ap not (ap is_body (sym e) ∙ h) in cc))

is_prefix-append :
    (k w rest : List ℕ)
    → all is_body k ≡ true
    → is_apart rest ≡ true
    → is_prefix k (w ++ rest) ≡ is_prefix k w
unfolding is_prefix
is_prefix-append [] [] rest h a = refl
is_prefix-append [] (c ∷ w) rest h a = refl
is_prefix-append (d ∷ k) [] [] h a = refl
is_prefix-append (d ∷ k) [] (e ∷ rest) h a =
    let (x, y) = and-true (is_body d) (all is_body k) h in rw (separator-body d e x a) refl
is_prefix-append (d ∷ k) (c ∷ w) rest h a =
    let (x, y) = and-true (is_body d) (all is_body k) h in rw (is_prefix-append k w rest y a) refl

is_prefix-shorter :
    (k w : List ℕ) → is_prefix k w ≡ true → equal_texts k w ≡ false → length k < length w
unfolding is_prefix
is_prefix-shorter [] [] h e = cc
is_prefix-shorter [] (c ∷ w) h e = omega arith
is_prefix-shorter (d ∷ k) [] h e = cc
is_prefix-shorter (d ∷ k) (c ∷ w) h e =
    let (x, y) = and-true (d == c) (is_prefix k w) h in
    let other : equal_texts k w ≡ false = sym (rw x refl) ∙ e in
    omega (arith, is_prefix-shorter k w y other)

is_prefix_self :
    (k w rest : List ℕ)
    → equal_texts k w ≡ true
    → (is_prefix k (w ++ rest) ≡ true) × (length k ≡ length w)
unfolding is_prefix
is_prefix_self [] [] [] e = (refl, refl)
is_prefix_self [] [] (r ∷ rest) e = (refl, refl)
is_prefix_self [] (c ∷ w) rest e = cc
is_prefix_self (d ∷ k) [] rest e = cc
is_prefix_self (d ∷ k) (c ∷ w) rest e =
    let (x, y) = and-true (d == c) (equal_texts k w) e in
    let (p, q) = is_prefix_self k w rest y in (rw (x, p) refl, ap suc q)

shorter-match :
    (k w rest : List ℕ)
    → is_literal k ≡ true
    → 0 < length w
    → is_apart rest ≡ true
    → equal_texts k w ≡ false
    → matched (literal k) (w ++ rest) < length w
unfolding matched
shorter-match [] w rest h p a e = cc
shorter-match (d ∷ k) [] rest h p a e = absurd (omega arith)
shorter-match (d ∷ k) (c ∷ w) rest h p a e =
    let same : is_prefix (d ∷ k) (c ∷ (w ++ rest)) ≡ is_prefix (d ∷ k) (c ∷ w) =
      unfold is_prefix in rw (is_prefix-append k w rest h a) refl in
    elim (Bool-cases (is_prefix (d ∷ k) (c ∷ w))) [
      | inl u ↦ rw (same, u) (is_prefix-shorter (d ∷ k) (c ∷ w) u e)
      | inr u ↦ rw (same, u) (omega arith)
    ]

module _ (tail : List Rule) (w rest : List ℕ) (action : Action) where
  -- Over literals in front of other rules: that of the word itself is taken, and no other matters.
  pub first_best-literals :
      (ks : List (List ℕ × Token))
      → are_literals ks ≡ true
      → 0 < length w
      → is_apart rest ≡ true
      → first_best tail (w ++ rest) ≡ (length w, action)
      → first_best (map keyword_rule ks ++ tail) (w ++ rest)
        ≡ (length w, elim (lookup w ks) [ none ↦ action | some token ↦ (λ _. some token) ])
  unfolding first_best lookup matched
  first_best-literals [] h p a e = e
  first_best-literals ((k, token) ∷ ks) h p a e =
      let (x, y) = and-true (is_literal k) (are_literals ks) h in
      let ih = first_best-literals ks y p a e in
      elim (Bool-cases (equal_texts k w)) [
        | inl same ↦
            let (u, v) = is_prefix_self k w rest same in
            rw (same, ih, u, v) (rw (le→leb (length w) (length w) (omega arith)) refl)
        | inr other ↦
            rw (other, ih)
              (rw
                (lt→leb-false (length w) (if is_prefix k (w ++ rest) then length k else 0)
                  (shorter-match k w rest x p a other))
                refl)
      ]

-- A text that starts like no keyword is none of them.
abbrev pub is_numeral : List ℕ → Bool
is_numeral [] = false
is_numeral (c ∷ s) = is_digit c || ((c == b'-') || (c == b'.'))

abbrev pub are_words : List (List ℕ × Token) → Bool
are_words [] = true
are_words ((k, token) ∷ ks) = not (is_numeral k) && are_words ks

equal_texts-numeral :
    (k w : List ℕ) → not (is_numeral k) ≡ true → is_numeral w ≡ true → equal_texts k w ≡ false
equal_texts-numeral [] [] h n = cc
equal_texts-numeral [] (c ∷ w) h n = refl
equal_texts-numeral (d ∷ k) [] h n = refl
equal_texts-numeral (d ∷ k) (c ∷ w) h n =
    rw
      (ne→==-false d c
        (λ e. (let clash : not (is_numeral (d ∷ k)) ≡ false = rw e (ap not n) in cc)))
      refl

pub lookup-numeral :
    (ks : List (List ℕ × Token)) (w : List ℕ)
    → are_words ks ≡ true
    → is_numeral w ≡ true
    → lookup w ks ≡ none
unfolding lookup
lookup-numeral [] w h n = refl
lookup-numeral ((k, token) ∷ ks) w h n =
    let (x, y) = and-true (not (is_numeral k)) (are_words ks) h in
    rw (equal_texts-numeral k w x n, lookup-numeral ks w y n) refl

pub minus-numeral :
    (negative : Bool) (s : List ℕ) → is_numeral s ≡ true → is_numeral (minus negative s) ≡ true
minus-numeral true s h = refl
minus-numeral false s h = h

pub int-numeral : (s : List ℕ) → 0 < length s → all is_digit s ≡ true → is_numeral s ≡ true
int-numeral [] l d = absurd (omega arith)
int-numeral (c ∷ s) l d = rw (and-true (is_digit c) (all is_digit s) d).0 refl

pub float-numeral : (s t : List ℕ) → all is_digit s ≡ true → is_numeral (s ++ (b'.' ∷ t)) ≡ true
float-numeral [] t d = refl
float-numeral (c ∷ s) t d = rw (and-true (is_digit c) (all is_digit s) d).0 refl
