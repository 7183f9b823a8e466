-- ===== src/Schema/Sizes.antt =====
-- `getRealNodeSize` and `getIdArraySize` of dataFile.c, with the wrap-around of `size_t`.
use llp_base.Common.{
  ℕ, zero, suc, ◌+◌, ◌*◌, ◌/◌, ◌%◌, ◌^◌, ◌<◌, ◌≤◌, ◌≡◌, max, ltb, ◌==◌, u64, if◌then◌else◌, arith,
  ap, sym, ◌⊎◌, ◌∙◌, Bool-cases, ==_iff, inl, inr,
}
use native.Mathlib.Nat.{div-add-mod, mod-lt, mul-mod_left, mul-le-mul_left}

-- MIN_NODE_SIZE, SINGLE_NODE_SIZE, OFFSET, MIN_ID_ARRAY_SIZE and FILE_GRANULARITY of dataFile.h.
abbrev pub min_node_size : ℕ
min_node_size = 256

abbrev pub single_node_size : ℕ
single_node_size = 8

abbrev pub offset_size : ℕ
offset_size = 8

abbrev pub min_id_array_size : ℕ
min_id_array_size = 1

abbrev pub file_granularity : ℕ
file_granularity = 4

-- `max` of dataFile.c.
max_u64 : ℕ → ℕ → ℕ
max_u64 a b = if ltb b a then a else b

unfoldable pub real_node_size : ℕ → ℕ
real_node_size size =
    if ltb (u64 (size * single_node_size)) min_node_size
    then min_node_size
    else u64 (size * single_node_size)

-- `whole`, `frac` and `value` of `getIdArraySize`, for `m` bytes of offsets.
unfoldable pub id_array_words : ℕ → ℕ → ℕ
unfolding max_u64
id_array_words node m =
    let whole = m / node in
    let frac = if m % node == 0 then 0 else 1 in
    max_u64 (u64 (u64 (frac + whole) * node) / offset_size)
      (u64 (min_id_array_size * node) / offset_size)

unfoldable pub id_array_size : ℕ → ℕ → ℕ
unfolding real_node_size id_array_words
id_array_size attr_size cur_id =
    let n = if cur_id == 0 then 1 else cur_id in
    id_array_words (u64 (real_node_size attr_size + 16)) (u64 (n * offset_size))

-- How many offsets fit the place of one node.
abbrev pub slots : ℕ → ℕ
slots attr_size = max (attr_size + 2) 34

-- The sizes fit `size_t` with room to spare: at most 2^20 attributes, and 2^40 ids.
pub record Fits (attr_size cur_id : ℕ) : Type 0 where
  pub attrs : attr_size ≤ 2 ^ 20
  pub ids : cur_id ≤ 2 ^ 40

pub real_node_size-slots : {t c : ℕ} → Fits t c → real_node_size t + 16 ≡ 8 * slots t
unfolding real_node_size
real_node_size-slots f = ground arith

-- Rounding up to whole multiples.
unfoldable pub round_up : ℕ → ℕ → ℕ
round_up m d = (if m % d == 0 then 0 else 1) + m / d

pub round_up_bounds : (m d : ℕ) → 0 < d → (m ≤ round_up m d * d) × (round_up m d * d < m + d)
unfolding round_up
round_up_bounds m d h = elim (Bool-cases (m % d == 0)) [
  | inl e ↦ rw e (
    grind (arith, div-add-mod m d, (==_iff (m % d) 0).0 e),
    grind (arith, div-add-mod m d, (==_iff (m % d) 0).0 e),
  )
  | inr e ↦
      rw e (grind (arith, div-add-mod m d, mod-lt m h), grind (arith, div-add-mod m d, mod-lt m h))
]

max_u64_words :
    (k s : ℕ)
    → 0 < k
    → 0 < s
    → k * (8 * s) < 2 ^ 64
    → max_u64 (u64 (u64 k * (8 * s)) / 8) (u64 (1 * (8 * s)) / 8) ≡ k * s
unfolding max_u64
max_u64_words zero s hk hs h = absurd (omega arith)
max_u64_words (suc k) zero hk hs h = absurd (omega arith)
max_u64_words (suc k) (suc s) hk hs h =
    let fits : u64 (suc k) ≡ suc k = omega arith in rw fits (ground arith)

id_array_words-round_up :
    (s m : ℕ)
    → 0 < s
    → 0 < m
    → m + 8 * s < 2 ^ 64
    → id_array_words (8 * s) m ≡ round_up m (8 * s) * s
unfolding id_array_words round_up
id_array_words-round_up s m hs hm h =
    let b : (m ≤ ((if m % (8 * s) == 0 then 0 else 1) + m / (8 * s)) * (8 * s))
        × (((if m % (8 * s) == 0 then 0 else 1) + m / (8 * s)) * (8 * s) < m + 8 * s) =
      round_up_bounds m (8 * s) (omega arith) in
    max_u64_words ((if m % (8 * s) == 0 then 0 else 1) + m / (8 * s)) s (grind (arith, b.0)) hs
      (omega (arith, b.1))

id_array_size-round_up :
    {t c : ℕ} → Fits t c → id_array_size t c ≡ round_up (8 * max c 1) (8 * slots t) * slots t
unfolding id_array_size
id_array_size-round_up {t} {c} f =
    let n : u64 ((if c == 0 then 1 else c) * 8) ≡ 8 * max c 1 = ground arith in
    rw (real_node_size-slots f, n)
      (ap (λ d. id_array_words d (8 * max c 1)) {y = 8 * slots t} (omega arith)
        ∙ id_array_words-round_up (slots t) (8 * max c 1) (omega arith) (omega arith) (omega arith))

-- For at most 2^20 attributes and 2^40 ids, the array of ids has a slot for each of the ids and at
-- least one, is whole node places long, and has fewer spare slots than one place.
pub id_array_size_bounds :
    {t c : ℕ}
    → Fits t c
    → (max c 1 ≤ id_array_size t c)
      × (id_array_size t c < max c 1 + slots t)
      × (id_array_size t c % slots t ≡ 0)
id_array_size_bounds {t} {c} f =
    let s : ℕ = slots t in
    let k : ℕ = round_up (8 * max c 1) (8 * s) in
    let b : (8 * max c 1 ≤ k * (8 * s)) × (k * (8 * s) < 8 * max c 1 + 8 * s) =
      round_up_bounds (8 * max c 1) (8 * s) (omega arith) in
    rw (id_array_size-round_up f) (omega (arith, b.0), omega (arith, b.1), mul-mod_left k s)

Tri-cases : (a b : ℕ) → (suc a ≤ b) ⊎ (suc b ≤ a) ⊎ (a ≡ b)
Tri-cases a b = ground arith

pub multiple_unique : (s a b : ℕ) → 0 < s → a ≤ b → b < a + s → a % s ≡ 0 → b % s ≡ 0 → b ≡ a
multiple_unique s a b h p q e f =
    let i : s * (a / s) ≡ a = omega (arith, div-add-mod a s) in
    let j : s * (b / s) ≡ b = omega (arith, div-add-mod b s) in
    elim (Tri-cases (a / s) (b / s)) [
      | inl l ↦ absurd (omega (arith, mul-le-mul_left s l))
      | inr (inl l) ↦ absurd (omega (arith, mul-le-mul_left s l))
      | inr (inr l) ↦ sym j ∙ ap (λ n. s * n) (sym l) ∙ i
    ]

-- When as many ids are in use as fill whole node places, the array has no slot for the next id.
pub id_array_size-full : {t c : ℕ} → Fits t c → 0 < c → c % slots t ≡ 0 → id_array_size t c ≡ c
id_array_size-full {t} {c} f h e =
    let b = id_array_size_bounds f in
    multiple_unique (slots t) c (id_array_size t c) (omega arith) (omega (arith, b.0))
      (omega (arith, b.1)) e b.2
