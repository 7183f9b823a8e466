-- ===== src/Store/Strings/Counted.antt =====
-- `getStringLenght` on a chain that `insertNodeStr` has written.
use native.Mathlib.Nat.{mul-add, mul-suc, mul-one}
use llp_base.Common.{
  ℕ, zero, suc, ◌+◌, ◌*◌, ◌^◌, ◌<◌, ◌≤◌, ◌≡◌, ap, ◌∙◌, List, ◌∷◌, ◌++◌, length, take, drop, arith,
  length-take, length-drop, length-append, drop-rest,
}
use llp_base.Schema.{NodeHeader}
use llp_base.OsFile.{World, ok}
use llp_base.DataFile.{node_head_bytes, chain_length}
use llp_base.Store.Insert.{length-node_head_bytes}
use llp_base.Store.Strings.Copied.{drop-inside}
use llp_base.Store.Strings.Written.{chain}
use llp_base.Store.Strings.Links
use llp_base.Store.Strings.Steps.{header_of_words-node_head_bytes, read_file-head, chain_step}

-- A chain of `count` nodes of `r` bytes at `pos`, of the text `cs` and what stands behind it in memory.
module _ (r count pos k : ℕ) (cs behind : List ℕ) (w : World) (pad : length cs + k ≡ r * count)
    (short : k < r) (room : r * count ≤ length cs + suc (length behind))
    (small : pos + (r + 16) * (count + 1) < 2 ^ 63) where
  abbrev buffer : List ℕ
  buffer = cs ++ (0 ∷ behind)

  abbrev offset : ℕ → ℕ
  offset = Links.offset r count pos small

  abbrev header : ℕ → NodeHeader
  header = Links.header r count pos small

  abbrev Here : ℕ → ℕ → Type 0
  Here left i = drop (offset i) w.bytes ≡ chain left buffer r pos count i

  pub string_place :
      (i l : ℕ)
      → i + suc l ≡ count
      → (r * i ≤ length cs) × (drop (r * i) buffer ≡ drop (r * i) cs ++ (0 ∷ behind))
  string_place i l e =
      let inside : r * i ≤ length cs =
        omega (arith, mul-add r i (suc l), mul-suc r l, ap (λ n. r * n) e) in
      (inside, drop-inside (r * i) cs (0 ∷ behind) inside)

  pub length-place : (i l : ℕ) → i + suc l ≡ count → length (take r (drop (r * i) buffer)) ≡ r
  length-place i l e = omega (
    arith,
    length-take r (drop (r * i) buffer),
    length-drop {0} (r * i) buffer,
    length-append cs (0 ∷ behind),
    mul-add r i (suc l),
    mul-suc r l,
    ap (λ n. r * n) e,
  )

  pub next-Here : (i l : ℕ) → i + suc l ≡ count → Here (suc l) i → Here l (i + 1)
  next-Here i l e h =
      let behind_head = drop-rest (offset i) w.bytes (node_head_bytes (header i)) _ h in
      let behind_place =
        drop-rest (offset i + length (node_head_bytes (header i))) w.bytes
          (take r (drop (r * i) buffer)) _ behind_head in
      let there : offset (i + 1)
          ≡ offset i + length (node_head_bytes (header i)) + length (take r (drop (r * i) buffer)) =
        omega (
          arith,
          length-node_head_bytes (header i),
          length-place i l e,
          mul-add (r + 16) i 1,
          mul-one (r + 16),
        ) in
      ap (λ n. drop n w.bytes) there ∙ behind_place

  -- The walk from a node's header on counts the nodes behind it.
  pub chain_length-chain :
      (l i fuel n p : ℕ)
      → l < fuel
      → i + suc l ≡ count
      → Here (suc l) i
      → (q : ℕ) × (chain_length fuel (node_head_bytes (header i)) n (record w { pos = p })
          ≡ ok (n + l) (record w { pos = q }))
  unfolding chain_length
  chain_length-chain l i zero n p f e h = absurd (omega arith)
  chain_length-chain zero i (suc fuel) n p f e h =
      let words = Links.header-words r count pos small i 0 e in
      (
        p,
        rw
            (
              header_of_words-node_head_bytes (header i) (record w { pos = p }) words.0 words.1,
              Links.next-last r count pos small i e,
            )
            (ap (λ m. ok m (record w { pos = p })) (omega arith)),
      )
  chain_length-chain (suc l) i (suc fuel) n p f e h =
      let words = Links.header-words r count pos small i (suc l) e in
      let further = next-Here i (suc l) e h in
      let (q, ih) =
        chain_length-chain l (i + 1) fuel (n + 1) (offset (i + 1) + 16) (omega arith) (omega arith)
          further in
      (
        q,
        chain_step (node_head_bytes (header i)) (node_head_bytes (header (i + 1))) (header i) fuel n
              (record w { pos = p }) (record w { pos = offset (i + 1) + 16 }) (offset (i + 1)) _
              (header_of_words-node_head_bytes (header i) (record w { pos = p }) words.0 words.1)
              (Links.next-inner r count pos small i l e) (Links.offset-pos r count pos small i)
              (Links.offset-lt r count pos small (i + 1) (suc l) (omega arith))
              (omega
                (arith, length-node_head_bytes (header i), length-node_head_bytes (header (i + 1))))
              (read_file-head (header (i + 1)) (record w { pos = offset (i + 1) }) _ further) ih
            ∙ ap (λ m. ok m (record w { pos = q })) (omega arith),
      )
