-- ===== src/Store/Strings/Written.antt =====
-- `insertNodeStr` puts a chain at the end of the file.
use mathlib.Core.Path.{fun_ext}
use native.Mathlib.Nat.{mul-add, mul-suc, mul-one}
use llp_base.Common.{
  ℕ, zero, suc, ◌+◌, ◌-◌, ◌*◌, ◌^◌, ◌<◌, ◌≤◌, ◌≡◌, refl, ap, sym, ◌∙◌, List, [], ◌++◌, length, take,
  drop, arith, append_assoc, append-nil, u64, length-take, length-drop, take_all, le→ltb-false,
}
use llp_base.OsFile.{World, ok, write_file, fwrite}
use llp_base.Schema.{NodeHeader}
use llp_base.DataFile.{node_head_bytes, write_node}
use llp_base.BaseApi.{crud_success, insert_node, chain_header, insert_chain}
use llp_base.Store.Insert.{insert_node-end}

take-take : (n : ℕ) (xs : List ℕ) → take n (take n xs) ≡ take n xs
take-take n xs = take_all n (take n xs) (omega (arith, length-take n xs))

-- What stands in a buffer behind the bytes that are written does not matter.
write_file-take : (n : ℕ) (b : List ℕ) → n ≤ length b → write_file b n ≡ write_file (take n b) n
unfolding write_file fwrite
write_file-take n b h = fun_ext (λ w.
    rw
      (
        le→ltb-false (length b) n h,
        le→ltb-false (length (take n b)) n (omega (arith, length-take n b)),
        take-take n b,
      )
      refl)

write_node-take :
    (h : NodeHeader) (contents : List ℕ) (r : ℕ)
    → r ≤ length contents
    → write_node (record { header = h; contents = contents }) r
      ≡ write_node (record { header = h; contents = take r contents }) r
unfolding write_node
write_node-take h contents r l = rw (write_file-take r contents l) refl

insert_node-take :
    (h : NodeHeader) (contents : List ℕ) (r : ℕ) (w : World)
    → r ≤ length contents
    → r < 2 ^ 62
    → insert_node (record { header = h; contents = contents }) (r + 16) w
      ≡ insert_node (record { header = h; contents = take r contents }) (r + 16) w
unfolding insert_node
insert_node-take h contents r w l small =
    let size : u64 (r + 16 + 2 ^ 64 - 16) ≡ r = omega arith in
    rw (size, write_node-take h contents r l) refl

-- A node with a longer buffer goes to the end of the file with its first bytes.
insert_node-long :
    (w : World) (h : NodeHeader) (contents : List ℕ) (r : ℕ)
    → r ≤ length contents
    → 0 < r
    → r < 2 ^ 62
    → insert_node (record { header = h; contents = contents }) (r + 16) w
      ≡ ok
          (crud_success, length w.bytes)
          (record w {
            bytes = w.bytes ++ (node_head_bytes h ++ take r contents);
            pos = length w.bytes + (16 + r);
          })
insert_node-long w h contents r l p small =
    insert_node-take h contents r w l small
    ∙ ap (λ n. insert_node (record { header = h; contents = take r contents }) n w) {x = r + 16}
        {y = 16 + r} (omega arith)
    ∙ insert_node-end w (record { header = h; contents = take r contents }) r
        (omega (arith, length-take r contents)) p small

-- The nodes from the `i`th on of a chain of `count` that begins at `pos`.
abbrev pub chain : ℕ → List ℕ → ℕ → ℕ → ℕ → ℕ → List ℕ
chain zero string r pos count i = []
chain (suc left) string r pos count i =
    node_head_bytes (chain_header pos r count i)
    ++ (take r (drop (r * i) string) ++ chain left string r pos count (i + 1))

-- The nodes of the chain go to the end of the file, one after the other.
pub insert_chain-chain :
    (left : ℕ) (string : List ℕ) (r pos count i : ℕ) (w : World)
    → r * (i + left) ≤ length string
    → 0 < r
    → r < 2 ^ 62
    → (p : ℕ) × (insert_chain left string r pos count i w
        ≡ ok tt (record w { bytes = w.bytes ++ chain left string r pos count i; pos = p }))
unfolding insert_chain
insert_chain-chain zero string r pos count i w l p small =
    (w.pos, ap (λ (bs : List ℕ). ok tt (record w { bytes = bs })) (sym (append-nil w.bytes)))
insert_chain-chain (suc left) string r pos count i w l p small =
    let place : r ≤ length (drop (r * i) string) =
      omega (arith, length-drop {0} (r * i) string, mul-add r i (suc left), mul-suc r left) in
    let node : List ℕ =
      node_head_bytes (chain_header pos r count i) ++ take r (drop (r * i) string) in
    let w1 : World = record w { bytes = w.bytes ++ node; pos = length w.bytes + (16 + r) } in
    let (q, e) =
      insert_chain-chain left string r pos count (i + 1) w1
        (omega (
          arith,
          mul-add r (i + 1) left,
          mul-add r i 1,
          mul-one r,
          mul-add r i (suc left),
          mul-suc r left,
        ))
        p small in
    (
      q,
      rw (insert_node-long w (chain_header pos r count i) (drop (r * i) string) r place p small, e)
          (ap (λ (bs : List ℕ). ok tt (record w { bytes = bs; pos = q }))
            (append_assoc w.bytes node (chain left string r pos count (i + 1))
              ∙ ap (λ t. w.bytes ++ t)
                  (append_assoc (node_head_bytes (chain_header pos r count i))
                    (take r (drop (r * i) string)) (chain left string r pos count (i + 1))))),
    )
