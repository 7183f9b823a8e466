-- ===== src/Store/Strings/RoundTrip.antt =====
-- A string that `insertNodeStr` has put into the file is read again by `readStringFromNode`.
use native.Mathlib.Nat.{mul_comm, mul-zero}
use llp_base.Common.{
  ℕ, suc, ◌+◌, ◌-◌, ◌*◌, ◌/◌, ◌%◌, ◌^◌, ◌<◌, ◌≤◌, ◌≡◌, ◌⊎◌, inl, inr, refl, ap, sym, ◌∙◌, List, ◌∷◌,
  ◌++◌, length, drop, replicate, ◌==◌, arith, drop-append, length-append, if◌then◌else◌,
}
use native.Mathlib.Nat.{add-zero}
use llp_base.OsFile.{World, ok, seek_end}
use llp_base.Schema.Sizes.{real_node_size, round_up, round_up_bounds}
use llp_base.DataFile.{read_string_from_node}
use llp_base.BaseApi.{chain_header, insert_chain, insert_node_str}
use llp_base.Store.Get.{data_read}
use llp_base.Store.Strings.Copied.{IsText, strlen-text}
use llp_base.Store.Strings.Written.{chain, insert_chain-chain}
use llp_base.Store.Strings.Chained.{read_string_from_node-chain}

Zero-cases : (n : ℕ) → (n ≡ 0) ⊎ (0 < n)
Zero-cases n = omega arith

-- The nodes that a text of `n` bytes takes, in places of `r` bytes.
abbrev pub places : ℕ → ℕ → ℕ
places n r = n / r + (if n % r == 0 then 0 else 1)

places_bounds : (n r : ℕ) → 0 < r → (n ≤ r * places n r) × (r * places n r < n + r)
places_bounds n r p =
    let (lower, upper) = round_up_bounds n r p in
    let same : r * places n r ≡ round_up n r * r =
      unfold round_up in mul_comm r (places n r) ∙ ap (λ m. m * r) {x = places n r} (omega arith) in
    (omega arith, omega arith)

real_node_size-bounds :
    (size : ℕ)
    → size ≤ 2 ^ 20
    → (0 < real_node_size size)
      × (real_node_size size < 2 ^ 24)
      × (real_node_size size ≤ data_read size)
unfolding real_node_size
real_node_size-bounds size h = (ground arith, ground arith, ground arith)

-- The only node of a chain has no links, so that it does not matter where the chain is thought to be.
chain_alone :
    (string : List ℕ) (r pos pos' : ℕ) → chain 1 string r pos 1 0 ≡ chain 1 string r pos' 1 0
unfolding chain_header
chain_alone string r pos pos' = refl

-- A chain begins where it is thought to, or it has one node.
chain_here :
    (string : List ℕ) (r pos pos' count : ℕ)
    → (pos ≡ pos') ⊎ (count ≡ 1)
    → chain count string r pos count 0 ≡ chain count string r pos' count 0
chain_here string r pos pos' count (inl e) = ap (λ p. chain count string r p count 0) e
chain_here string r pos pos' count (inr e) = rw e (chain_alone string r pos pos')

places-pos : (n r : ℕ) → 0 < r → 0 < n → 0 < places n r
places-pos n r p h = elim (Zero-cases (places n r)) [
  | inl e ↦ absurd (omega (arith, (places_bounds n r p).0, ap (λ m. r * m) e, mul-zero r, h))
  | inr e ↦ e
]

module _ (w : World) (size fuel r count k : ℕ) (cs behind : List ℕ)
    (sized : real_node_size size ≡ r) (place : 0 < r) (r_small : r < 2 ^ 24)
    (asked : r ≤ data_read size) (text : IsText cs) (pad : length cs + k ≡ r * count)
    (short : k < r) (some_node : 0 < count) (room : r * count ≤ length cs + suc (length behind))
    (small : length w.bytes + (r + 16) * (count + 1) < 2 ^ 63) (enough : count ≤ fuel)
    (stands : (w.pos ≡ length w.bytes) ⊎ (count ≡ 1)) where
  nodes : List ℕ
  nodes = chain count (cs ++ (0 ∷ behind)) r w.pos count 0

  -- The loop of `insertNodeStr`, and what is then read.
  chain-read :
      (q : ℕ) × (p : ℕ) × (insert_chain count
          (cs ++ (0 ∷ behind))
          r
          w.pos
          count
          0
          (record w { pos = length w.bytes })
        ≡ ok tt (record w { bytes = w.bytes ++ nodes; pos = q }))
      × (read_string_from_node fuel size
            (length w.bytes)
            (record w { bytes = w.bytes ++ nodes; pos = q })
          ≡ ok (cs ++ replicate k 0) (record w { bytes = w.bytes ++ nodes; pos = p }))
  unfolding nodes
  chain-read =
      let string : List ℕ = cs ++ (0 ∷ behind) in
      let (q, written) =
        insert_chain-chain count string r w.pos count 0 (record w { pos = length w.bytes })
          (omega (
            arith,
            length-append cs (0 ∷ behind),
            ap (λ n. r * n) {x = 0 + count} {y = count} (omega arith),
          ))
          place (omega arith) in
      let start : length w.bytes + (r + 16) * 0 ≡ length w.bytes =
        omega (arith, mul-zero (r + 16)) in
      let full : suc (count - 1) ≡ count = omega arith in
      let here : drop (length w.bytes + (r + 16) * 0) (w.bytes ++ nodes)
          ≡ chain (suc (count - 1)) string r (length w.bytes) count 0 =
        ap (λ n. drop n (w.bytes ++ nodes)) start
        ∙ drop-append w.bytes nodes
        ∙ chain_here string r w.pos (length w.bytes) count stands
        ∙ ap (λ n. chain n string r (length w.bytes) count 0) (sym full) in
      let (p, read) =
        read_string_from_node-chain size r count (length w.bytes) k cs behind
          (record w { bytes = w.bytes ++ nodes; pos = q }) sized place asked text pad short room
          small (count - 1) fuel q full (omega arith) here in
      (q, p, written, read)

-- A text of at least one character is put behind everything in the file, and read again at the place
-- that is returned, with zero bytes behind it up to the end of its last node's place. The node's data
-- is that of at most 2^20 attributes; what stands in memory behind the text's zero byte reaches to the
-- end of the last place; and the stream stands at the end of the file, or the text takes one node:
-- the links are counted from where the stream stands. As many rounds as nodes are enough.
pub read_string_from_node-insert_node_str :
    (w : World) (size fuel : ℕ) (cs behind : List ℕ)
    → size ≤ 2 ^ 20
    → IsText cs
    → 0 < length cs
    → real_node_size size * places (length cs) (real_node_size size)
      ≤ length cs + suc (length behind)
    → length w.bytes + (real_node_size size + 16) * (places (length cs) (real_node_size size) + 1)
      < 2 ^ 63
    → places (length cs) (real_node_size size) ≤ fuel
    → (w.pos ≡ length w.bytes) ⊎ (places (length cs) (real_node_size size) ≡ 1)
    → (w' : World) × (more : List ℕ) × (p : ℕ) × (insert_node_str
          (cs ++ (0 ∷ behind))
          (real_node_size size)
          w
        ≡ ok (length w.bytes) w')
      × (w'.bytes ≡ w.bytes ++ more)
      × (read_string_from_node fuel size (length w.bytes) w'
          ≡ ok
              (cs
                ++ replicate
                    (real_node_size size * places (length cs) (real_node_size size) - length cs)
                    0)
              (record w' { pos = p }))
unfolding insert_node_str seek_end
read_string_from_node-insert_node_str w size fuel cs behind few text filled room small enough
      stands =
    let r : ℕ = real_node_size size in
    let count : ℕ = places (length cs) r in
    let (place, r_small, asked) = real_node_size-bounds size few in
    let (lower, upper) = places_bounds (length cs) r place in
    let (q, p, written, read) =
      chain-read w size fuel r count (r * count - length cs) cs behind refl place r_small asked text
        (omega arith) (omega arith) (places-pos (length cs) r place filled) room small enough
        stands in
    (_, _, p, rw (strlen-text cs behind text, add-zero (length w.bytes), written) refl, refl, read)
