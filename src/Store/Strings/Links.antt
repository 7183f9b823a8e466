-- ===== src/Store/Strings/Links.antt =====
-- The headers of a chain that `insertNodeStr` links.
use native.Mathlib.Nat.{mul-add, mul-one}
use llp_base.Common.{ℕ, suc, ◌+◌, ◌-◌, ◌*◌, ◌^◌, ◌<◌, ◌≡◌, refl, ap, true, ◌==◌, arith, ne→==-false}
use llp_base.Schema.{NodeHeader, next_node}
use llp_base.BaseApi.{chain_header}
use llp_base.Store.Strings.Steps.{if-lt}

-- A chain of `count` nodes of `r` bytes that begins at `pos`.
module _ (r count pos : ℕ) (small : pos + (r + 16) * (count + 1) < 2 ^ 63) where
  abbrev pub offset : ℕ → ℕ
  offset i = pos + (r + 16) * i

  abbrev pub header : ℕ → NodeHeader
  header i = chain_header pos r count i

  pub offset-lt : (i l : ℕ) → i + l ≡ count → offset i < 2 ^ 63
  offset-lt i l e = omega (
    arith,
    small,
    mul-add (r + 16) i (l + 1),
    ap (λ n. (r + 16) * (n + 1)) e,
    ap (λ (n : ℕ). (r + 16) * n) {x = i + (l + 1)} {y = i + l + 1} (omega arith),
  )

  pub header-words :
      (i l : ℕ) → i + suc l ≡ count → ((header i).parent < 2 ^ 64) × ((header i).alloc < 2 ^ 64)
  unfolding chain_header
  header-words i l e = (
    if-lt (i == 0) 0 (offset (i - 1)) (omega arith)
        (omega (arith, offset-lt (i - 1) (count - (i - 1)) (omega arith))),
    if-lt (count - 1 == i) 0 (offset (i + 1)) (omega arith)
        (omega (arith, offset-lt (i + 1) l (omega arith))),
  )

  pub next-last : (i : ℕ) → i + 1 ≡ count → next_node (header i) ≡ 0
  unfolding chain_header
  next-last i e = let last : (count - 1 == i) ≡ true = ground arith in rw last refl

  pub next-inner : (i l : ℕ) → i + suc (suc l) ≡ count → next_node (header i) ≡ offset (i + 1)
  unfolding chain_header
  next-inner i l e = rw (ne→==-false (count - 1) i (λ h. omega (arith, h, e))) refl

  pub offset-pos : (i : ℕ) → 0 < offset (i + 1)
  offset-pos i = omega (arith, mul-add (r + 16) i 1, mul-one (r + 16))
