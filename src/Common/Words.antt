-- ===== src/Common/Words.antt =====
-- Machine words: the wrap-around of `uint64_t`, and words as little-endian bytes.
use Prim.Native.Nat.{ℕ, zero, suc, ◌+◌, ◌*◌, ◌/◌, ◌%◌, ◌^◌, ◌<◌}
use mathlib.Core.Path.{◌≡◌, refl, ap, ◌∙◌}
use mathlib.Core.List.{List, [], ◌∷◌, ◌++◌}
use native.Mathlib.Nat.{pow-suc}
use native.Mathlib.Omega.{arith}
use llp_base.Common.Lists.{length, length-append}

abbrev pub u64 : ℕ → ℕ
u64 n = n % 2 ^ 64

-- The `w` low bytes of a number, least significant first.
unfoldable pub to_le : ℕ → ℕ → List ℕ
to_le zero n = []
to_le (suc w) n = (n % 256) ∷ to_le w (n / 256)

unfoldable pub from_le : List ℕ → ℕ
from_le [] = 0
from_le (b ∷ bs) = b + 256 * from_le bs

pub length-to_le : (w n : ℕ) → length (to_le w n) ≡ w
unfolding to_le
length-to_le zero n = refl
length-to_le (suc w) n = ap suc (length-to_le w (n / 256))

from_le-to_le_mod : (w n : ℕ) → n < 256 ^ w → from_le (to_le w n) ≡ n
unfolding to_le from_le
from_le-to_le_mod zero n h = omega arith
from_le-to_le_mod (suc w) n h =
    omega (arith, from_le-to_le_mod w (n / 256) (omega (arith, pow-suc 256 w)))

pub from_le-to_le_8 : (n : ℕ) → n < 2 ^ 64 → from_le (to_le 8 n) ≡ n
from_le-to_le_8 n h = from_le-to_le_mod 8 n h

pub from_le-to_le_4 : (n : ℕ) → n < 2 ^ 32 → from_le (to_le 4 n) ≡ n
from_le-to_le_4 n h = from_le-to_le_mod 4 n h

-- An array of `uint64_t` in memory, and the whole words at the front of a run of bytes.
unfoldable pub words_to_le : List ℕ → List ℕ
words_to_le [] = []
words_to_le (w ∷ ws) = to_le 8 w ++ words_to_le ws

unfoldable pub words_from_le : List ℕ → List ℕ
unfolding from_le
words_from_le (a ∷ b ∷ c ∷ d ∷ e ∷ f ∷ g ∷ h ∷ rest) =
    from_le (a ∷ b ∷ c ∷ d ∷ e ∷ f ∷ g ∷ h ∷ []) ∷ words_from_le rest
words_from_le _ = []

-- Every word fits 64 bits.
abbrev pub AreWords : List ℕ → Type 0
AreWords [] = Unit {0}
AreWords (w ∷ ws) = (w < 2 ^ 64) × AreWords ws

pub length-words_to_le : (ws : List ℕ) → length (words_to_le ws) ≡ 8 * length ws
unfolding words_to_le
length-words_to_le [] = omega arith
length-words_to_le (w ∷ ws) =
    omega (
      arith,
      length-append {0} (to_le 8 w) (words_to_le ws),
      length-to_le 8 w,
      length-words_to_le ws,
    )

pub words_from_le-to_le :
    (w : ℕ) (rest : List ℕ)
    → w < 2 ^ 64
    → words_from_le (to_le 8 w ++ rest) ≡ w ∷ words_from_le rest
unfolding words_from_le to_le from_le
words_from_le-to_le w rest h = ap (λ x. x ∷ words_from_le rest) (omega arith)

pub words_from_le-words_to_le : (ws : List ℕ) → AreWords ws → words_from_le (words_to_le ws) ≡ ws
unfolding words_to_le
words_from_le-words_to_le [] h = unfold words_from_le in refl
words_from_le-words_to_le (w ∷ ws) h =
    words_from_le-to_le w (words_to_le ws) h.0 ∙ ap (λ t. w ∷ t) (words_from_le-words_to_le ws h.1)
