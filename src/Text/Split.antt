-- ===== src/Text/Split.antt =====
-- `split` on a line of parts that are joined by the delimiter.
use llp_base.Common.{
  ℕ, zero, suc, ◌-◌, ◌<◌, ◌≡◌, refl, sym, ap, ◌∙◌, some, false, List, [], ◌∷◌, ◌++◌, length, ◌==◌,
  arith, le→ltb-false, ==-refl, append-nil,
}
use llp_base.Text.{
  text_of, c_string, count_parts, flush, scan_tokens, strip_newline, strip_at, split,
}

-- No zero byte, no line feed and no `c`.
abbrev pub IsPlain : ℕ → List ℕ → Type 0
IsPlain c [] = Unit {0}
IsPlain c (x ∷ xs) = (0 < x) × ((x == 10) ≡ false) × ((x == c) ≡ false) × IsPlain c xs

-- A part that `strtok` can return: a plain one with a character.
abbrev pub IsPart : ℕ → List ℕ → Type 0
IsPart c [] = ⊥
IsPart c (x ∷ xs) = IsPlain c (x ∷ xs)

abbrev pub AreParts : ℕ → List (List ℕ) → Type 0
AreParts c [] = Unit {0}
AreParts c (p ∷ ps) = IsPart c p × AreParts c ps

-- The parts with `c` between them.
abbrev pub join : ℕ → List (List ℕ) → List ℕ
join c [] = []
join c (p ∷ []) = p
join c (p ∷ q ∷ ps) = p ++ c ∷ join c (q ∷ ps)

abbrev pub ArePositive : List ℕ → Type 0
ArePositive [] = Unit {0}
ArePositive (x ∷ xs) = (0 < x) × ArePositive xs

-- A string without zero bytes is read back from memory.
pub text_of-c_string : (cs : List ℕ) → ArePositive cs → text_of (c_string cs) ≡ some cs
unfolding text_of
text_of-c_string [] h = refl
text_of-c_string (zero ∷ cs) h = absurd (omega (arith, h.0))
text_of-c_string (suc x ∷ cs) h = rw (text_of-c_string cs h.1)

scan_plain :
    (c : ℕ) (p rest : List ℕ)
    → IsPlain c p
    → scan_tokens (c ∷ []) (p ++ rest)
      ≡ (p ++ (scan_tokens (c ∷ []) rest).0, (scan_tokens (c ∷ []) rest).1)
unfolding scan_tokens
scan_plain c [] rest h = refl
scan_plain c (x ∷ p) rest h = rw (h.2, scan_plain c p rest h.3)

count_plain :
    (c : ℕ) (p rest : List ℕ) → IsPlain c p → count_parts c (p ++ rest) ≡ count_parts c rest
unfolding count_parts
count_plain c [] rest h = refl
count_plain c (x ∷ p) rest h = rw (h.1, h.2) (count_plain c p rest h.3)

positive_plain :
    (c : ℕ) (p rest : List ℕ) → IsPlain c p → ArePositive rest → ArePositive (p ++ rest)
positive_plain c [] rest h r = r
positive_plain c (x ∷ p) rest h r = (h.0, positive_plain c p rest h.3 r)

IsPlain-part : (c : ℕ) (p : List ℕ) → IsPart c p → IsPlain c p
IsPlain-part c [] h = absurd h
IsPlain-part c (x ∷ p) h = h

positive_join : (c : ℕ) (ps : List (List ℕ)) → 0 < c → AreParts c ps → ArePositive (join c ps)
positive_join c [] k h = tt
positive_join c (p ∷ []) k h = rw (← append-nil p) (positive_plain c p [] (IsPlain-part c p h.0) tt)
positive_join c (p ∷ q ∷ ps) k h =
    positive_plain c p (c ∷ join c (q ∷ ps)) (IsPlain-part c p h.0)
      (k, positive_join c (q ∷ ps) k h.1)

flush_part : (c : ℕ) (p : List ℕ) (ps : List (List ℕ)) → IsPart c p → flush p ps ≡ p ∷ ps
unfolding flush
flush_part c [] ps h = absurd h
flush_part c (x ∷ p) ps h = refl

scan_join :
    (c : ℕ) (p : List ℕ) (ps : List (List ℕ))
    → AreParts c (p ∷ ps)
    → scan_tokens (c ∷ []) (join c (p ∷ ps)) ≡ (p, ps)
unfolding scan_tokens
scan_join c p [] h =
    ap (scan_tokens (c ∷ [])) (sym (append-nil p))
    ∙ scan_plain c p [] (IsPlain-part c p h.0)
    ∙ ap (λ t. (t, [])) (append-nil p)
scan_join c p (q ∷ ps) h =
    scan_plain c p (c ∷ join c (q ∷ ps)) (IsPlain-part c p h.0)
    ∙ rw (==-refl c, scan_join c q ps h.1, flush_part c q ps h.1.0)
        (ap (λ t. (t, q ∷ ps)) (append-nil p))

count_join :
    (c : ℕ) (p : List ℕ) (ps : List (List ℕ))
    → ((c == 10) ≡ false)
    → AreParts c (p ∷ ps)
    → count_parts c (join c (p ∷ ps)) ≡ length (p ∷ ps)
unfolding count_parts
count_join c p [] k h =
    ap (count_parts c) (sym (append-nil p)) ∙ count_plain c p [] (IsPlain-part c p h.0)
count_join c p (q ∷ ps) k h =
    count_plain c p (c ∷ join c (q ∷ ps)) (IsPlain-part c p h.0)
    ∙ rw (k, ==-refl c, count_join c q ps k h.1) (omega arith)

strip_plain : (c : ℕ) (p : List ℕ) → IsPlain c p → strip_newline p ≡ p
unfolding strip_newline
strip_plain c [] h = refl
strip_plain c (x ∷ []) h = rw h.1
strip_plain c (x ∷ y ∷ p) h = ap (λ t. x ∷ t) (strip_plain c (y ∷ p) h.3)

strip_parts : (c i : ℕ) (ps : List (List ℕ)) → AreParts c ps → strip_at i ps ≡ ps
unfolding strip_at
strip_parts c i [] h = refl
strip_parts c zero (p ∷ ps) h = ap (λ t. t ∷ ps) (strip_plain c p (IsPlain-part c p h.0))
strip_parts c (suc i) (p ∷ ps) h = ap (λ t. p ∷ t) (strip_parts c i ps h.1)

-- A line of parts joined by `c` is split into these parts, and their number is returned, when no part
-- is empty or holds `c`, a line feed or a zero byte, and a zero byte stands behind `c` in memory.
pub split-join :
    (c : ℕ) (p : List ℕ) (ps : List (List ℕ)) (behind : List ℕ)
    → 0 < c
    → (c == 10) ≡ false
    → AreParts c (p ∷ ps)
    → split (c_string (join c (p ∷ ps))) c (0 ∷ behind) ≡ some (length (p ∷ ps), p ∷ ps)
unfolding split text_of
split-join c p ps behind pos nl h = rw (
  text_of-c_string (join c (p ∷ ps)) (positive_join c (p ∷ ps) pos h),
  scan_join c p ps h,
  flush_part c p ps h.0,
  count_join c p ps nl h,
  le→ltb-false (length (p ∷ ps)) (length (p ∷ ps)) (omega arith),
  strip_parts c (length (p ∷ ps) - 1) (p ∷ ps) h,
)
