-- ===== src/Public/Terminated.antt =====
-- Keys and names that are strings: their comparison is defined, and finds an attribute.
use llp_base.Common.{
  ℕ, zero, suc, ◌+◌, ◌-◌, ◌<◌, ◌≤◌, ◌≡◌, inl, inr, refl, Option, none, some, Bool, true, false,
  Bool-cases, List, [], ◌∷◌, ◌++◌, length, replicate, arith, ◌==◌,
}
use llp_base.OsFile.{World, ok}
use llp_base.Inner.{str_equal}
use llp_base.Public.Fields.{char_array, first_field}

-- Memory in which a string ends.
abbrev pub IsTerminated : List ℕ → Type 0
IsTerminated [] = ⊥
IsTerminated (zero ∷ s) = Unit {0}
IsTerminated (suc c ∷ s) = IsTerminated s

abbrev pub AreTerminated : List (List ℕ) → Type 0
AreTerminated [] = Unit {0}
AreTerminated (name ∷ names) = IsTerminated name × AreTerminated names

IsTerminated-append : (s t : List ℕ) → IsTerminated t → IsTerminated (s ++ t)
IsTerminated-append [] t h = h
IsTerminated-append (zero ∷ s) t h = tt
IsTerminated-append (suc c ∷ s) t h = IsTerminated-append s t h

zeros-IsTerminated : (n : ℕ) → 0 < n → IsTerminated (replicate n 0)
zeros-IsTerminated zero h = absurd (omega arith)
zeros-IsTerminated (suc n) h = tt

pub char_array-IsTerminated : (text : List ℕ) → length text ≤ 1023 → IsTerminated (char_array text)
char_array-IsTerminated text h =
    IsTerminated-append text _ (zeros-IsTerminated (1024 - length text) (omega arith))

str_equal-defined :
    (s t : List ℕ) → IsTerminated s → IsTerminated t → (b : Bool) × (str_equal s t ≡ some b)
unfolding str_equal
str_equal-defined [] t h k = absurd h
str_equal-defined (c ∷ s) [] h k = absurd k
str_equal-defined (zero ∷ s) (zero ∷ t) h k = (true, refl)
str_equal-defined (zero ∷ s) (suc d ∷ t) h k = (false, refl)
str_equal-defined (suc c ∷ s) (zero ∷ t) h k = (false, refl)
str_equal-defined (suc c ∷ s) (suc d ∷ t) h k = elim (Bool-cases (c == d)) [
  | inl e ↦ let r = str_equal-defined s t h k in (r.0, rw (e, r.1) refl)
  | inr e ↦ (false, rw e refl)
]

-- What the search for an attribute finds: a number below that of the attributes.
abbrev pub IsBelow : ℕ → Option ℕ → Type 0
IsBelow n none = Unit {0}
IsBelow n (some i) = i < n

pub first_field-IsBelow :
    (key : List ℕ) (names : List (List ℕ)) (i : ℕ) (w : World)
    → IsTerminated key
    → AreTerminated names
    → (r : Option ℕ) × (first_field key names i w ≡ ok r w) × IsBelow (i + length names) r
unfolding first_field
first_field-IsBelow key [] i w h k = (none, refl, tt)
first_field-IsBelow key (name ∷ names) i w h k =
    let (b, same) = str_equal-defined key name h k.0 in
    elim (Bool-cases b) [
      | inl e ↦ (some i, rw (same, e) refl, omega arith)
      | inr e ↦
          let (r, found, below) = first_field-IsBelow key names (i + 1) w h k.1 in
          (r, rw (same, e, found) refl, moved r below)
    ]
  where
    moved :
        (r : Option ℕ) → IsBelow (i + 1 + length names) r → IsBelow (i + length (name ∷ names)) r
    moved none h = tt
    moved (some j) h = omega (arith, h)
