-- ===== src/Text.antt =====
-- storage/Utils/sstring.c. A `char*` is the bytes of memory from there on that are set, and a read
-- past them is `none`.
pub mod Split
use llp_base.Common.{
  ℕ, zero, suc, ◌+◌, ◌-◌, Option, none, some, Bool, true, false, List, [], ◌∷◌, ◌++◌, length, ltb,
  ◌==◌, ◌||◌, ◌&&◌, if◌then◌else◌,
}

infixl 5 ◌>>=◌
abbrev pub ◌>>=◌ : {A B : Type 0} → Option A → (A → Option B) → Option B
none >>= f = none
some a >>= f = f a

-- The characters before the zero byte that ends a string.
unfoldable pub text_of : List ℕ → Option (List ℕ)
text_of [] = none
text_of (zero ∷ cs) = some []
text_of (suc c ∷ cs) = do rest ← text_of cs; some (suc c ∷ rest)

-- A string in memory.
abbrev pub c_string : List ℕ → List ℕ
c_string [] = 0 ∷ []
c_string (c ∷ cs) = c ∷ c_string cs

-- `isNumeric`: a string, or the part of it before a carriage return, of digits.
unfoldable pub is_numeric : List ℕ → Option Bool
is_numeric [] = none
is_numeric (zero ∷ cs) = some true
is_numeric (suc c ∷ cs) =
    let rest = is_numeric cs in
    if suc c == 13
    then some true
    else if ltb (suc c) b'0' || ltb b'9' (suc c)
    then some false
    else rest

unfoldable pub concat : List ℕ → List ℕ → Option (List ℕ)
concat str1 str2 = do a ← text_of str1; b ← text_of str2; some (c_string (a ++ b))

-- The first loop of `split`: one more than the delimiters before the first line feed.
unfoldable pub count_parts : ℕ → List ℕ → ℕ
count_parts c [] = 1
count_parts c (x ∷ xs) =
    let rest = count_parts c xs in if x == 10 then 1 else if x == c then rest + 1 else rest

abbrev pub elem : ℕ → List ℕ → Bool
elem x [] = false
elem x (d ∷ ds) = (x == d) || elem x ds

unfoldable pub flush : List ℕ → List (List ℕ) → List (List ℕ)
flush [] rest = rest
flush (c ∷ cs) rest = (c ∷ cs) ∷ rest

-- The characters before the first delimiter, and the tokens behind it.
unfoldable pub scan_tokens : List ℕ → List ℕ → List ℕ × List (List ℕ)
scan_tokens delims [] = ([], [])
scan_tokens delims (x ∷ xs) =
    let (cur, rest) = scan_tokens delims xs in
    if elem x delims then ([], flush cur rest) else (x ∷ cur, rest)

-- What the calls of `strtok` return, one after another.
unfoldable pub tokens : List ℕ → List ℕ → List (List ℕ)
unfolding scan_tokens flush
tokens delims text = let (cur, rest) = scan_tokens delims text in flush cur rest

-- The last character goes, if it is a line feed.
unfoldable pub strip_newline : List ℕ → List ℕ
strip_newline [] = []
strip_newline (c ∷ []) = if c == 10 then [] else c ∷ []
strip_newline (c ∷ d ∷ cs) = c ∷ strip_newline (d ∷ cs)

-- The token at index `count - 1` loses its line feed.
unfoldable pub strip_at : ℕ → List (List ℕ) → List (List ℕ)
strip_at i [] = []
strip_at zero (t ∷ ts) = strip_newline t ∷ ts
strip_at (suc i) (t ∷ ts) = t ∷ strip_at i ts

-- `split`: the count that it returns, and the entries of the array that it sets. The delimiters of
-- `strtok` begin with `c` and go on, since `&c` is no string, with what memory holds behind it.
unfoldable pub split : List ℕ → ℕ → List ℕ → Option (ℕ × List (List ℕ))
unfolding tokens strip_at strip_newline
split str c behind = do
  text ← text_of str
  more ← text_of behind
  let count = count_parts c text
  let parts = tokens (c ∷ more) text
  if ltb count (length parts) then none else some (count, strip_at (count - 1) parts)
