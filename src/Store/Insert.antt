-- ===== src/Store/Insert.antt =====
-- `insertNode` puts the node at the end of the file.
use llp_base.Common.{
  ℕ, zero, suc, ◌+◌, ◌-◌, ◌^◌, ◌<◌, ◌≡◌, refl, ap, ap₂, ◌∙◌, List, [], ◌∷◌, ◌++◌, length, drop,
  replicate, append-nil, take_all, length-append, u64, arith, length-words_to_le,
}
use native.Mathlib.Nat.{add-zero}
use llp_base.OsFile.{World, ok, write_success, seek_end, ftruncate, resize, splice, write_file}
use llp_base.OsFile.Laws.{write_file-ok, splice_behind}
use llp_base.Schema.{NodeHeader, KeyNode}
use llp_base.DataFile.{node_head_bytes, write_node}
use llp_base.DataFile.Reading.{wrote, wrote-wrote}
use llp_base.BaseApi.{crud_success, insert_node}

pub length-node_head_bytes : (h : NodeHeader) → length (node_head_bytes h) ≡ 16
unfolding node_head_bytes
length-node_head_bytes h = length-words_to_le (h.parent ∷ h.alloc ∷ [])

-- A node is written at the stream's position, header first.
pub write_node-wrote :
    (w : World) (node : KeyNode) (r : ℕ)
    → length node.contents ≡ r
    → 0 < r
    → write_node node r w
      ≡ ok write_success (wrote w (node_head_bytes node.header ++ node.contents))
unfolding write_node
write_node-wrote w node r e pos =
    let head : write_file (node_head_bytes node.header) 16 w
        ≡ ok write_success (wrote w (node_head_bytes node.header)) =
      rw (← length-node_head_bytes node.header) (
        write_file-ok w (node_head_bytes node.header)
          (omega (arith, length-node_head_bytes node.header))) in
    let body : write_file node.contents r (wrote w (node_head_bytes node.header))
        ≡ ok write_success (wrote (wrote w (node_head_bytes node.header)) node.contents) =
      rw (← e)
        (write_file-ok (wrote w (node_head_bytes node.header)) node.contents (omega arith)) in
    rw (head, body)
      (ap (ok write_success) (wrote-wrote w (node_head_bytes node.header) node.contents))

resize_up : (n : ℕ) (bs : List ℕ) → resize (length bs + n) bs ≡ bs ++ replicate n 0
unfolding resize
resize_up n bs =
    rw (take_all (length bs + n) bs (omega arith)) (ap (λ k. bs ++ replicate k 0) (omega arith))

drop_zeros : (n : ℕ) → drop {A = ℕ} n (replicate n 0) ≡ []
drop_zeros zero = refl
drop_zeros (suc n) = drop_zeros n

-- The node stands behind everything that was in the file, at the position that is returned.
pub insert_node-end :
    (w : World) (node : KeyNode) (r : ℕ)
    → length node.contents ≡ r
    → 0 < r
    → r < 2 ^ 62
    → insert_node node (16 + r) w
      ≡ ok
          (crud_success, length w.bytes)
          (record w {
            bytes = w.bytes ++ (node_head_bytes node.header ++ node.contents);
            pos = length w.bytes + (16 + r);
          })
unfolding insert_node seek_end ftruncate
insert_node-end w node r e pos small =
    let w1 : World = record w { bytes = w.bytes ++ replicate (16 + r) 0; pos = length w.bytes } in
    let full : List ℕ = node_head_bytes node.header ++ node.contents in
    let len : length full ≡ 16 + r = omega (
      arith,
      length-append {0} (node_head_bytes node.header) node.contents,
      length-node_head_bytes node.header,
    ) in
    let size : u64 (16 + r + 2 ^ 64 - 16) ≡ r = omega arith in
    let placed : splice (length w.bytes) full (w.bytes ++ replicate (16 + r) 0) ≡ w.bytes ++ full =
      splice_behind w.bytes full (replicate (16 + r) 0)
      ∙ rw (len, drop_zeros (16 + r)) (append-nil (w.bytes ++ full)) in
    let end : length w.bytes + length full ≡ length w.bytes + (16 + r) = omega (arith, len) in
    rw
      (
        add-zero (length w.bytes),
        resize_up (16 + r) w.bytes,
        size,
        write_node-wrote w1 node r e pos,
      )
      (ap₂ (λ b n. ok (crud_success, length w.bytes) (record w { bytes = b; pos = n })) placed end)
