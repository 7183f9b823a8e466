-- ===== src/Store/SetValue.antt =====
-- A node written over another, and the values of the others.
use mathlib.Core.Option.{some-injective, none-ne-some}
use native.Mathlib.Nat.{mul-le-mul_left}
use llp_base.Common.{
  ℕ, zero, suc, ◌+◌, ◌*◌, ◌^◌, ◌<◌, ◌≤◌, ◌≡◌, ◌≢◌, ◌⊎◌, inl, inr, refl, ap, some, List, [], ◌∷◌,
  ◌++◌, length, take, set, get_elem?, arith,
}
use llp_base.OsFile.{World, ok, write_success, write_file}
use llp_base.OsFile.Laws.{write_file-ok}
use llp_base.Schema.{NodeHeader}
use llp_base.Schema.Sizes.{real_node_size}
use llp_base.DataFile.{node_head_bytes, write_node}
use llp_base.DataFile.Reading.{wrote, wrote-wrote}
use llp_base.Store.Insert.{length-node_head_bytes}
use llp_base.Store.Get.{data_read}
use llp_base.Store.Overwrite.{write_file-take}
use llp_base.Store.Tree.{TreeNode}

-- The nodes with the value of attribute `f` of node `id` set.
abbrev pub set_value : ℕ → ℕ → ℕ → List TreeNode → List TreeNode
set_value id f v [] = []
set_value zero f v (n ∷ nodes) = record n { values = set n.values f v } ∷ nodes
set_value (suc id) f v (n ∷ nodes) = n ∷ set_value id f v nodes

pub length-set_value :
    (id f v : ℕ) (nodes : List TreeNode) → length (set_value id f v nodes) ≡ length nodes
length-set_value id f v [] = refl
length-set_value zero f v (n ∷ nodes) = refl
length-set_value (suc id) f v (n ∷ nodes) = ap suc (length-set_value id f v nodes)

pub set_value-cases :
    (id f v : ℕ) (nodes : List TreeNode) (j : ℕ) (m : TreeNode)
    → get_elem? (set_value id f v nodes) j ≡ some m
    → ((j ≢ id) × (get_elem? nodes j ≡ some m))
      ⊎ ((j ≡ id)
          × ((n : TreeNode) × (get_elem? nodes id ≡ some n)
              × (record n { values = set n.values f v } ≡ m)))
set_value-cases id f v [] j m e = absurd (none-ne-some m e)
set_value-cases zero f v (n ∷ nodes) zero m e = inr (refl, (n, refl, some-injective _ m e))
set_value-cases zero f v (n ∷ nodes) (suc j) m e = inl ((λ p. omega (arith, p)), e)
set_value-cases (suc id) f v (n ∷ nodes) zero m e = inl ((λ p. omega (arith, p)), e)
set_value-cases (suc id) f v (n ∷ nodes) (suc j) m e = elim (set_value-cases id f v nodes j m e) [
  | inl h ↦ inl ((λ p. h.0 (omega (arith, p))), h.1)
  | inr h ↦ inr (ap suc h.0, h.1)
]

-- Places of different numbers do not overlap.
pub places_apart : (i j p : ℕ) → i < j → i * p + p ≤ j * p
places_apart i j p h = grind (arith, mul-le-mul_left p h)

pub data_read-ge :
    (t : ℕ)
    → t ≤ 2 ^ 20
    → (real_node_size t ≤ data_read t) × (0 < real_node_size t) × (8 * t ≤ real_node_size t)
unfolding real_node_size
data_read-ge t h = ground arith

-- A node is written over another one, of which the block may be longer than what is written.
pub write_node-take :
    (w : World) (h : NodeHeader) (contents : List ℕ) (r : ℕ)
    → r ≤ length contents
    → 0 < r
    → write_node (record { header = h; contents = contents }) r w
      ≡ ok write_success (wrote w (node_head_bytes h ++ take r contents))
unfolding write_node
write_node-take w h contents r le pos =
    let head : write_file (node_head_bytes h) 16 w
        ≡ ok write_success (wrote w (node_head_bytes h)) =
      rw (← length-node_head_bytes h)
        (write_file-ok w (node_head_bytes h) (omega (arith, length-node_head_bytes h))) in
    rw (head, write_file-take (wrote w (node_head_bytes h)) contents r le pos)
      (ap (ok write_success) (wrote-wrote w (node_head_bytes h) (take r contents)))

pub Order-cases : (j id : ℕ) → j ≢ id → (j < id) ⊎ (id < j)
Order-cases j id h = grind (arith, h)
