-- ===== src/Client/Lexer/Spelling.antt =====
-- analyzer/rules.lex: texts piece by piece, and the tokens that stand for the pieces.
use llp_base.Common.{
  ℕ, Option, none, some, Bool, true, false, ◌&&◌, ◌||◌, not, List, [], ◌∷◌, ◌++◌, ltb, length, ◌==◌,
  codes, if◌then◌else◌,
}
use llp_base.Client.Lexer.{
  Token, storage, op_brace, cl_brace, op_c_brace, cl_c_brace, op_sq_brace, cl_sq_brace, colon,
  dollar, quote, comma, string, float, int, is_digit, is_letter, is_word_character, keywords,
  with_token,
}

-- The keywords that are no words.
pub data Mark : Type 0 where
  storage_mark op_brace_mark cl_brace_mark op_c_brace_mark cl_c_brace_mark op_sq_brace_mark : Mark
  cl_sq_brace_mark colon_mark dollar_mark quote_mark comma_mark : Mark

abbrev pub mark_text : Mark → List ℕ
mark_text storage_mark = codes "storage."
mark_text op_brace_mark = codes "("
mark_text cl_brace_mark = codes ")"
mark_text op_c_brace_mark = codes "{"
mark_text cl_c_brace_mark = codes "}"
mark_text op_sq_brace_mark = codes "["
mark_text cl_sq_brace_mark = codes "]"
mark_text colon_mark = codes ":"
mark_text dollar_mark = codes "$"
mark_text quote_mark = codes "\""
mark_text comma_mark = codes ","

abbrev pub mark_token : Mark → Token
mark_token storage_mark = storage
mark_token op_brace_mark = op_brace
mark_token cl_brace_mark = cl_brace
mark_token op_c_brace_mark = op_c_brace
mark_token cl_c_brace_mark = cl_c_brace
mark_token op_sq_brace_mark = op_sq_brace
mark_token cl_sq_brace_mark = cl_sq_brace
mark_token colon_mark = colon
mark_token dollar_mark = dollar
mark_token quote_mark = quote
mark_token comma_mark = comma

-- A piece of a text: a word, a mark, an integer or a float with or without a minus, or a blank.
pub data Piece : Type 0 where
  word_piece : ℕ → List ℕ → Piece
  mark_piece : Mark → Piece
  int_piece : Bool → List ℕ → Piece
  float_piece : Bool → List ℕ → List ℕ → Piece
  blank_piece : ℕ → Piece

abbrev pub minus : Bool → List ℕ → List ℕ
minus true s = b'-' ∷ s
minus false s = s

abbrev pub piece_text : Piece → List ℕ
piece_text (word_piece c s) = c ∷ s
piece_text (mark_piece m) = mark_text m
piece_text (int_piece negative s) = minus negative s
piece_text (float_piece negative s t) = minus negative (s ++ (b'.' ∷ t))
piece_text (blank_piece c) = c ∷ []

abbrev pub text : List Piece → List ℕ
text [] = []
text (p ∷ ps) = piece_text p ++ text ps

abbrev pub equal_texts : List ℕ → List ℕ → Bool
equal_texts [] [] = true
equal_texts [] (d ∷ t) = false
equal_texts (c ∷ s) [] = false
equal_texts (c ∷ s) (d ∷ t) = (c == d) && equal_texts s t

-- The token of a word that is a keyword.
unfoldable pub lookup : List ℕ → List (List ℕ × Token) → Option Token
lookup w [] = none
lookup w ((k, token) ∷ ks) = let rest = lookup w ks in if equal_texts k w then some token else rest

abbrev pub get_or {ℓ} : {A : Type ℓ} → A → Option A → A
get_or a none = a
get_or a (some b) = b

-- A keyword where the word is one, and else a STRING.
abbrev pub word_token : List ℕ → Token
word_token s = get_or (string s) (lookup s keywords)

module _ (strtod atoi : List ℕ → ℕ) where
  abbrev pub piece_token : Piece → Option Token
  piece_token (word_piece c s) = some (word_token (c ∷ s))
  piece_token (mark_piece m) = some (mark_token m)
  piece_token (int_piece negative s) = some (int (atoi (minus negative s)))
  piece_token (float_piece negative s t) = some (float (strtod (minus negative (s ++ (b'.' ∷ t)))))
  piece_token (blank_piece c) = none

  abbrev pub tokens : List Piece → List Token
  tokens [] = []
  tokens (p ∷ ps) = with_token (piece_token p) (tokens ps)

abbrev pub all : (ℕ → Bool) → List ℕ → Bool
all p [] = true
all p (c ∷ s) = p c && all p s

-- A character that cannot go on a word or a number.
abbrev pub is_separator : ℕ → Bool
is_separator c = not (is_word_character c || (c == b'.'))

abbrev pub is_apart : List ℕ → Bool
is_apart [] = true
is_apart (c ∷ s) = is_separator c

-- A piece as the rules have it, with what may follow it.
abbrev pub is_piece : Piece → List ℕ → Bool
is_piece (word_piece c s) rest = is_letter c && (all is_word_character s && is_apart rest)
is_piece (mark_piece m) rest = true
is_piece (int_piece negative s) rest = ltb 0 (length s) && (all is_digit s && is_apart rest)
is_piece (float_piece negative s t) rest =
    all is_digit s && (ltb 0 (length t) && (all is_digit t && is_apart rest))
is_piece (blank_piece c) rest = (c == 32) || ((c == 9) || (c == 10))

abbrev pub are_pieces : List Piece → Bool
are_pieces [] = true
are_pieces (p ∷ ps) = is_piece p (text ps) && are_pieces ps
