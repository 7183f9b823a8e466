-- ===== src/Store/Strings/Copied.antt =====
-- `strlen` and `strncpy` on a text in memory, and a place of a node in the text.
use llp_base.Common.{
  ℕ, zero, suc, ◌+◌, ◌<◌, ◌≤◌, ◌≡◌, refl, ap, sym, some, List, [], ◌∷◌, ◌++◌, length, take, drop,
  replicate, arith,
}
use llp_base.DataFile.{strncpy}
use llp_base.BaseApi.{strlen}

-- No zero byte is among the characters.
abbrev pub IsText : List ℕ → Type 0
IsText [] = Unit {0}
IsText (c ∷ cs) = (0 < c) × IsText cs

pub strlen-text : (cs behind : List ℕ) → IsText cs → strlen (cs ++ (0 ∷ behind)) ≡ some (length cs)
unfolding strlen
strlen-text [] behind t = refl
strlen-text (zero ∷ cs) behind (p, t) = absurd (omega arith)
strlen-text (suc c ∷ cs) behind (p, t) = rw (strlen-text cs behind t) refl

take-replicate : (n k : ℕ) → n ≤ k → take n (replicate k 0) ≡ replicate {A = ℕ} n 0
take-replicate zero k h = refl
take-replicate (suc n) zero h = absurd (omega arith)
take-replicate (suc n) (suc k) h = ap (λ t. 0 ∷ t) (take-replicate n k (omega arith))

-- A place that was written of a text is copied with zeros behind the text.
pub strncpy-take :
    (n k : ℕ) (cs behind more : List ℕ)
    → IsText cs
    → n ≤ length cs + k
    → strncpy n (take n (cs ++ (0 ∷ behind)) ++ more) ≡ some (take n (cs ++ replicate k 0))
unfolding strncpy
strncpy-take zero k cs behind more t h = refl
strncpy-take (suc n) k [] behind more t h = ap some (sym (take-replicate (suc n) k (omega arith)))
strncpy-take (suc n) k (zero ∷ cs) behind more (p, t) h = absurd (omega arith)
strncpy-take (suc n) k (suc c ∷ cs) behind more (p, t) h =
    rw (strncpy-take n k cs behind more t (omega arith)) refl

pub drop-inside :
    (m : ℕ) (cs tail : List ℕ) → m ≤ length cs → drop m (cs ++ tail) ≡ drop m cs ++ tail
drop-inside zero cs tail h = refl
drop-inside (suc m) [] tail h = absurd (omega arith)
drop-inside (suc m) (c ∷ cs) tail h = drop-inside m cs tail (omega arith)

pub drop-IsText : (m : ℕ) (cs : List ℕ) → IsText cs → IsText (drop m cs)
drop-IsText zero cs t = t
drop-IsText (suc m) [] t = tt
drop-IsText (suc m) (c ∷ cs) (p, t) = drop-IsText m cs t

pub take-drop : (n : ℕ) (xs : List ℕ) → take n xs ++ drop n xs ≡ xs
take-drop zero xs = refl
take-drop (suc n) [] = refl
take-drop (suc n) (x ∷ xs) = ap (λ t. x ∷ t) (take-drop n xs)
