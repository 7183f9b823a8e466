-- ===== src/DataFile/Allocation.antt =====
-- The block that `readAttribute` allocates for a name, against the bytes that it then reads into it.
use llp_base.Common.{
  ℕ, ◌%◌, ◌^◌, ◌<◌, ◌≡◌, ap, ◌∙◌, true, List, ◌++◌, length, drop, append_assoc, arith, ltb, lt→ltb,
  from_le-to_le_4, to_le,
}
use llp_base.OsFile.{World, fault, ok, read_success, read_file}
use llp_base.OsFile.Laws.{read_file-ok}
use llp_base.Schema.{AttributeInfo}
use llp_base.DataFile.Read.{attribute_name_room, read_attribute}
use llp_base.DataFile.Write.{attr_head_bytes}
use llp_base.DataFile.Bytes.{attr_bytes}
use llp_base.DataFile.Reading.{read_head, left, moved}

-- Names are stored in whole groups of four bytes, and for such a size the block is too small.
pub attribute_name_room-lt : (n : ℕ) → 0 < n → n % 4 ≡ 0 → attribute_name_room n < n
unfolding attribute_name_room
attribute_name_room-lt n h e = ground arith

-- Where the allocator gives no more than it is asked for, reading an attribute that stands at the
-- stream's position and whose name fills whole groups of four bytes, at least one, writes past the
-- block.
pub read_attribute-overflow :
    (w : World) (a : AttributeInfo) (rest : List ℕ)
    → a.size ≡ length a.attribute_name
    → 0 < a.size
    → a.size % 4 ≡ 0
    → a.size < 2 ^ 32
    → w.usable (attribute_name_room a.size) ≡ attribute_name_room a.size
    → drop w.pos w.bytes ≡ attr_bytes a ++ rest
    → read_attribute w ≡ fault
unfolding read_attribute attr_bytes attr_head_bytes to_le
read_attribute-overflow w a rest named pos whole word exact h =
    let here : drop w.pos w.bytes ≡ attr_head_bytes a ++ (a.attribute_name ++ rest) =
      h ∙ append_assoc (attr_head_bytes a) a.attribute_name rest in
    let name : read_file a.size (moved w 8)
        ≡ ok (read_success, a.attribute_name) (moved (moved w 8) (length a.attribute_name)) =
      ap (λ n. read_file n (moved w 8)) named
      ∙ read_file-ok (moved w 8) a.attribute_name rest
          (left w (attr_head_bytes a) (a.attribute_name ++ rest) here)
          (omega (arith, named, pos)) in
    let small : ltb (w.usable (attribute_name_room a.size)) (length a.attribute_name) ≡ true =
      lt→ltb _ _ (omega (arith, named, exact, attribute_name_room-lt a.size pos whole)) in
    rw (read_head w a (a.attribute_name ++ rest) here, from_le-to_le_4 a.size word, name, small)
