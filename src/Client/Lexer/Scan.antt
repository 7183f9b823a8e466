-- ===== src/Client/Lexer/Scan.antt =====
-- analyzer/rules.lex: a text of pieces is scanned one piece after the other.
use llp_base.Common.{
  ℕ, zero, suc, ◌<◌, ◌≤◌, ◌≡◌, refl, ap, ◌∙◌, Option, none, some, Bool, true, false, ◌⊎◌, List, [],
  ◌∷◌, ◌++◌, length, ltb, take, drop, arith, inl, inr, length-append, drop-append, take-append,
  ◌==◌, ◌||◌,
}
use llp_base.Client.Lexer.{
  Token, int, float, Action, string, first_best, pattern_rules, rules, lex, with_token, keywords,
  is_digit, is_letter, is_word_character, matched, nothing, word_length, point_length,
  signed_length, fraction_length, span, is_prefix,
}
use llp_base.Client.Lexer.Spelling.{
  Mark, storage_mark, op_brace_mark, cl_brace_mark, op_c_brace_mark, cl_c_brace_mark,
  op_sq_brace_mark, cl_sq_brace_mark, colon_mark, dollar_mark, quote_mark, comma_mark, mark_text,
  mark_token, Piece, word_piece, mark_piece, int_piece, float_piece, blank_piece, minus, piece_text,
  text, lookup, get_or, word_token, piece_token, tokens, all, is_apart, is_piece, are_pieces,
}
use llp_base.Client.Lexer.Words.{
  and-true, first_best-literals, is_numeral, lookup-numeral, minus-numeral, int-numeral,
  float-numeral,
}
use llp_base.Client.Lexer.Patterns.{first_best-word}
use llp_base.Client.Lexer.Numbers.{first_best-int, first_best-float}

Blank-cases :
    (c : ℕ) → ((c == 32) || ((c == 9) || (c == 10))) ≡ true → (c ≡ 32) ⊎ ((c ≡ 9) ⊎ (c ≡ 10))
Blank-cases c h = ground arith

length-minus_pos : (negative : Bool) (s : List ℕ) → 0 < length s → 0 < length (minus negative s)
length-minus_pos true s l = omega arith
length-minus_pos false s l = l

module _ (strtod atoi : List ℕ → ℕ) where
  -- The rule that a text meets at a piece in front.
  Meets : List ℕ → List ℕ → Option Token → Type 0
  Meets w rest t =
      (action : Action) × (0 < length w)
      × (first_best (rules strtod atoi) (w ++ rest) ≡ (length w, action))
      × (action w ≡ t)

  Meets-pos : (w rest : List ℕ) (t : Option Token) → Meets w rest t → 0 < length w
  unfolding Meets
  Meets-pos w rest t (action, l, e, a) = l

  mark-Meets : (m : Mark) (rest : List ℕ) → Meets (mark_text m) rest (some (mark_token m))
  unfolding Meets first_best matched is_prefix word_length point_length signed_length
      fraction_length span
  mark-Meets storage_mark rest = (_, omega arith, refl, refl)
  mark-Meets op_brace_mark rest = (_, omega arith, refl, refl)
  mark-Meets cl_brace_mark rest = (_, omega arith, refl, refl)
  mark-Meets op_c_brace_mark rest = (_, omega arith, refl, refl)
  mark-Meets cl_c_brace_mark rest = (_, omega arith, refl, refl)
  mark-Meets op_sq_brace_mark rest = (_, omega arith, refl, refl)
  mark-Meets cl_sq_brace_mark rest = (_, omega arith, refl, refl)
  mark-Meets colon_mark rest = (_, omega arith, refl, refl)
  mark-Meets dollar_mark rest = (_, omega arith, refl, refl)
  mark-Meets quote_mark rest = (_, omega arith, refl, refl)
  mark-Meets comma_mark rest = (_, omega arith, refl, refl)

  first_best-space : (rest : List ℕ) → first_best (rules strtod atoi) (32 ∷ rest) ≡ (1, nothing)
  unfolding first_best matched is_prefix word_length point_length signed_length fraction_length span
  first_best-space rest = refl

  first_best-tab : (rest : List ℕ) → first_best (rules strtod atoi) (9 ∷ rest) ≡ (1, nothing)
  unfolding first_best matched is_prefix word_length point_length signed_length fraction_length span
  first_best-tab rest = refl

  first_best-line : (rest : List ℕ) → first_best (rules strtod atoi) (10 ∷ rest) ≡ (1, nothing)
  unfolding first_best matched is_prefix word_length point_length signed_length fraction_length span
  first_best-line rest = refl

  blank-Meets :
      (c : ℕ) (rest : List ℕ) → is_piece (blank_piece c) rest ≡ true → Meets (c ∷ []) rest none
  unfolding Meets
  blank-Meets c rest h = (
    nothing,
    omega arith,
    elim (Blank-cases c h) [
      | inl e ↦ rw e (first_best-space rest)
      | inr (inl e) ↦ rw e (first_best-tab rest)
      | inr (inr e) ↦ rw e (first_best-line rest)
    ],
    refl,
  )

  -- A word goes by its keyword, if there is one.
  action-lookup :
      (w : List ℕ) (o : Option Token)
      → (elim o as (λ _. Action) [ none ↦ (λ t. some (string t)) | some token ↦ (λ _. some token) ])
          w
        ≡ some (get_or (string w) o)
  action-lookup w none = refl
  action-lookup w (some token) = refl

  word-Meets :
      (c : ℕ) (s rest : List ℕ)
      → is_piece (word_piece c s) rest ≡ true
      → Meets (c ∷ s) rest (some (word_token (c ∷ s)))
  unfolding Meets
  word-Meets c s rest h =
      let (x, yz) = and-true (is_letter c) _ h in
      let (y, z) = and-true (all is_word_character s) (is_apart rest) yz in
      (
        _,
        omega arith,
        first_best-literals (pattern_rules strtod atoi) (c ∷ s) rest _ keywords refl (omega arith) z
            (first_best-word strtod atoi c s rest x y z),
        action-lookup (c ∷ s) (lookup (c ∷ s) keywords),
      )

  numeral-Meets :
      (w rest : List ℕ) (token : List ℕ → Token)
      → is_numeral w ≡ true
      → 0 < length w
      → is_apart rest ≡ true
      → first_best (pattern_rules strtod atoi) (w ++ rest) ≡ (length w, (λ s. some (token s)))
      → Meets w rest (some (token w))
  unfolding Meets
  numeral-Meets w rest token n l a e = (
    (λ s. some (token s)),
    l,
    first_best-literals (pattern_rules strtod atoi) w rest _ keywords refl l a e
        ∙ rw (lookup-numeral keywords w refl n) refl,
    refl,
  )

  piece-Meets :
      (p : Piece) (rest : List ℕ)
      → is_piece p rest ≡ true
      → Meets (piece_text p) rest (piece_token strtod atoi p)
  piece-Meets (word_piece c s) rest h = word-Meets c s rest h
  piece-Meets (mark_piece m) rest h = mark-Meets m rest
  piece-Meets (int_piece negative s) rest h =
      let (x, yz) = and-true (ltb 0 (length s)) _ h in
      let (y, z) = and-true (all is_digit s) (is_apart rest) yz in
      let l : 0 < length s = ground arith in
      numeral-Meets (minus negative s) rest (λ u. int (atoi u))
        (minus-numeral negative s (int-numeral s l y)) (length-minus_pos negative s l) z
        (first_best-int strtod atoi negative s rest l y z)
  piece-Meets (float_piece negative s t) rest h =
      let (w, xyz) = and-true (all is_digit s) _ h in
      let (x, yz) = and-true (ltb 0 (length t)) _ xyz in
      let (y, z) = and-true (all is_digit t) (is_apart rest) yz in
      let l : 0 < length t = ground arith in
      numeral-Meets (minus negative (s ++ (b'.' ∷ t))) rest (λ u. float (strtod u))
        (minus-numeral negative _ (float-numeral s t w))
        (length-minus_pos negative _ (omega (arith, length-append s (b'.' ∷ t)))) z
        (first_best-float strtod atoi negative s t rest w l y z)
  piece-Meets (blank_piece c) rest h = blank-Meets c rest h

  lex_step :
      (c : ℕ) (s : List ℕ) (n : ℕ) (action : Action) (fuel : ℕ) (ts : List Token)
      → first_best (rules strtod atoi) (c ∷ s) ≡ (n, action)
      → lex strtod atoi fuel (drop n (c ∷ s)) ≡ some ts
      → lex strtod atoi (suc fuel) (c ∷ s) ≡ some (with_token (action (take n (c ∷ s))) ts)
  unfolding lex
  lex_step c s n action fuel ts e h = rw (e, h) refl

  lex-Meets :
      (w rest : List ℕ) (t : Option Token) (fuel : ℕ) (ts : List Token)
      → Meets w rest t
      → lex strtod atoi fuel rest ≡ some ts
      → lex strtod atoi (suc fuel) (w ++ rest) ≡ some (with_token t ts)
  unfolding lex Meets
  lex-Meets [] rest t fuel ts (action, l, e, a) h = absurd (omega arith)
  lex-Meets (c ∷ w) rest t fuel ts (action, l, e, a) h =
      lex_step c (w ++ rest) _ action fuel ts e
        (ap (lex strtod atoi fuel) (drop-append (c ∷ w) rest) ∙ h)
      ∙ ap (λ o. some (with_token o ts)) (ap action (take-append (c ∷ w) rest) ∙ a)

  -- A text of pieces, each followed by what may follow it, is scanned into the tokens of the
  -- pieces: a mark or keyword as its token, another word as a STRING, numbers by `atoi` and
  -- `strtod`, and blanks as nothing. A round for each character is enough.
  pub lex-text :
      (ps : List Piece) (fuel : ℕ)
      → are_pieces ps ≡ true
      → length (text ps) ≤ fuel
      → lex strtod atoi fuel (text ps) ≡ some (tokens strtod atoi ps)
  lex-text [] fuel h l = unfold lex in refl
  lex-text (p ∷ ps) zero h l =
      let m = piece-Meets p (text ps) (and-true (is_piece p (text ps)) (are_pieces ps) h).0 in
      absurd (
        omega
          (arith, length-append (piece_text p) (text ps), Meets-pos (piece_text p) (text ps) _ m))
  lex-text (p ∷ ps) (suc fuel) h l =
      let (x, y) = and-true (is_piece p (text ps)) (are_pieces ps) h in
      let m = piece-Meets p (text ps) x in
      let ih = lex-text ps fuel y (
        omega (
          arith,
          length-append (piece_text p) (text ps),
          Meets-pos (piece_text p) (text ps) _ m,
        )) in
      lex-Meets (piece_text p) (text ps) _ fuel _ m ih
