-- ===== src/Store/Strings/Chained.antt =====
-- `readStringFromNode` on a chain that `insertNodeStr` has written.
use native.Mathlib.Nat.{mul-add, mul-suc, mul-one, mul-zero}
use llp_base.Common.{
  ℕ, zero, suc, ◌+◌, ◌*◌, ◌^◌, ◌<◌, ◌≤◌, ◌≡◌, refl, ap, sym, ◌∙◌, some, List, [], ◌∷◌, ◌++◌, length,
  take, drop, replicate, arith, append-nil, length-drop, length-append, length-replicate, take_all,
  drop-drop,
}
use llp_base.OsFile.{World, ok}
use llp_base.Schema.{NodeHeader, next_node}
use llp_base.Schema.Sizes.{real_node_size}
use llp_base.DataFile.{
  node_head_bytes, chain_length, read_chain, strncpy, string_length, read_string_from_node,
}
use llp_base.Store.Get.{data_read, read_node-header}
use llp_base.Store.Strings.Copied.{IsText, strncpy-take, drop-inside, drop-IsText, take-drop}
use llp_base.Store.Strings.Written.{chain}
use llp_base.Store.Strings.Links
use llp_base.Store.Strings.Steps.{take-longer, seek_set-ok, read_file-head, read_step}
use llp_base.Store.Strings.Counted.{string_place, length-place, next-Here, chain_length-chain}

-- A chain of `count` nodes of `r` bytes at `pos`, of the text `cs` and what stands behind it in memory.
module _ (size r count pos k : ℕ) (cs behind : List ℕ) (w : World) (sized : real_node_size size ≡ r)
    (place : 0 < r) (asked : r ≤ data_read size) (text : IsText cs)
    (pad : length cs + k ≡ r * count) (short : k < r)
    (room : r * count ≤ length cs + suc (length behind))
    (small : pos + (r + 16) * (count + 1) < 2 ^ 63) where
  abbrev buffer : List ℕ
  buffer = cs ++ (0 ∷ behind)

  abbrev offset : ℕ → ℕ
  offset = Links.offset r count pos small

  abbrev header : ℕ → NodeHeader
  header = Links.header r count pos small

  abbrev Here : ℕ → ℕ → Type 0
  Here left i = drop (offset i) w.bytes ≡ chain left buffer r pos count i

  abbrev whole : List ℕ
  whole = cs ++ replicate k 0

  -- What is copied of a node's place is the text there, with zeros behind it.
  copied :
      (i l : ℕ) (rest : List ℕ)
      → i + suc l ≡ count
      → strncpy (real_node_size size) (take (data_read size) (take r (drop (r * i) buffer) ++ rest))
        ≡ some (take r (drop (r * i) whole))
  copied i l rest e =
      let (inside, there) = string_place r count pos k cs behind w pad short room small i l e in
      let other : drop (r * i) whole ≡ drop (r * i) cs ++ replicate k 0 =
        drop-inside (r * i) cs (replicate k 0) inside in
      let long : r ≤ length (drop (r * i) cs) + k =
        omega (
          arith,
          length-drop {0} (r * i) cs,
          mul-add r i (suc l),
          mul-suc r l,
          ap (λ n. r * n) e,
        ) in
      ap (λ n. strncpy n (take (data_read size) (take r (drop (r * i) buffer) ++ rest))) sized
      ∙ rw
          (take-longer r (data_read size) (take r (drop (r * i) buffer)) rest
            (length-place r count pos k cs behind w pad short room small i l e) asked)
          (rw (there, other)
            (strncpy-take r k (drop (r * i) cs) behind _ (drop-IsText (r * i) cs text) long))

  length-rest : (i l : ℕ) → i + suc l ≡ count → length (drop (r * i) whole) ≡ r + r * l
  length-rest i l e = omega (
    arith,
    length-drop {0} (r * i) whole,
    length-append cs (replicate k 0),
    length-replicate {A = ℕ} k 0,
    mul-add r i (suc l),
    mul-suc r l,
    ap (λ n. r * n) e,
  )

  read_chain-chain :
      (l i p : ℕ)
      → i + suc l ≡ count
      → Here (suc l) i
      → (q : ℕ) × (read_chain (suc l) size (offset i) (record w { pos = p })
          ≡ ok (drop (r * i) whole) (record w { pos = q }))
  read_chain-chain zero i p e h =
      let words = Links.header-words r count pos small i 0 e in
      let (st, node) =
        read_node-header size (record w { pos = offset i }) (header i) _ words.0 words.1 h in
      (
        node.0,
        read_step 0 size (offset i) (header i) _ st (record w { pos = p })
              (record w { pos = node.0 }) (record w { pos = node.0 }) _ []
              (Links.offset-lt r count pos small i 1 e) node.1 (copied i 0 [] e)
              (unfold read_chain in refl)
            ∙ ap (λ t. ok t (record w { pos = node.0 }))
                (append-nil (take r (drop (r * i) whole))
                  ∙ take_all r (drop (r * i) whole) (omega (arith, length-rest i 0 e, mul-zero r))),
      )
  read_chain-chain (suc l) i p e h =
      let words = Links.header-words r count pos small i (suc l) e in
      let (st, node) =
        read_node-header size (record w { pos = offset i }) (header i) _ words.0 words.1 h in
      let (q, ih) =
        read_chain-chain l (i + 1) node.0 (omega arith)
          (next-Here r count pos k cs behind w pad short room small i (suc l) e h) in
      let further : read_chain (suc l) size (next_node (header i)) (record w { pos = node.0 })
          ≡ ok (drop (r * (i + 1)) whole) (record w { pos = q }) =
        ap (λ o. read_chain (suc l) size o (record w { pos = node.0 }))
          (Links.next-inner r count pos small i l e)
        ∙ ih in
      let next_part : drop (r * (i + 1)) whole ≡ drop r (drop (r * i) whole) =
        ap (λ n. drop n whole) {x = r * (i + 1)} {y = r * i + r}
          (omega (arith, mul-add r i 1, mul-one r))
        ∙ drop-drop (r * i) r whole in
      (
        q,
        read_step (suc l) size (offset i) (header i) _ st (record w { pos = p })
              (record w { pos = node.0 }) (record w { pos = q }) _ _
              (Links.offset-lt r count pos small i (suc (suc l)) e) node.1 (copied i (suc l) _ e)
              further
            ∙ ap (λ t. ok t (record w { pos = q }))
                (ap (λ t. take r (drop (r * i) whole) ++ t) next_part
                  ∙ take-drop r (drop (r * i) whole)),
      )

  -- The chain is read as the text, with zeros behind it up to the end of the last node's place.
  pub read_string_from_node-chain :
      (l fuel p : ℕ)
      → suc l ≡ count
      → l < fuel
      → Here (suc l) 0
      → (q : ℕ) × (read_string_from_node fuel size pos (record w { pos = p })
          ≡ ok whole (record w { pos = q }))
  unfolding read_string_from_node string_length
  read_string_from_node-chain l fuel p e f h =
      let start : offset 0 ≡ pos = omega (arith, mul-zero (r + 16)) in
      let here : drop pos w.bytes ≡ _ = ap (λ n. drop n w.bytes) (sym start) ∙ h in
      let (q1, len) =
        chain_length-chain r count pos k cs behind w pad short room small l 0 fuel 1 (pos + 16) f
          (omega arith) h in
      let (q2, chars) = read_chain-chain l 0 q1 (omega arith) h in
      let lt : pos < 2 ^ 63 =
        omega (arith, start, Links.offset-lt r count pos small 0 (suc l) (omega arith)) in
      let counted : chain_length fuel (node_head_bytes (header 0)) 1 (record w { pos = pos + 16 })
          ≡ ok (suc l) (record w { pos = q1 }) =
        len ∙ ap (λ n. ok n (record w { pos = q1 })) (omega arith) in
      let read : read_chain (suc l) size pos (record w { pos = q1 })
          ≡ ok whole (record w { pos = q2 }) =
        ap (λ o. read_chain (suc l) size o (record w { pos = q1 })) (sym start)
        ∙ chars
        ∙ ap (λ n. ok (drop n whole) (record w { pos = q2 })) (mul-zero r) in
      (
        q2,
        rw
            (
              seek_set-ok pos (record w { pos = p }) lt,
              read_file-head (header 0) (record w { pos = pos }) _ here,
              counted,
            )
            read,
      )
