-- ===== src/Store/Append.antt =====
-- `appendToIdArray` while the ids fit the place of one node.
use llp_base.Common.{
  ℕ, ◌+◌, ◌%◌, ◌^◌, ◌<◌, ◌≤◌, ◌≡◌, ap, ◌∙◌, true, false, List, ◌++◌, length, ltb, lt→ltb,
  le→ltb-false, ne→==-false, u64, arith,
}
use native.Mathlib.Nat.{mod-eq_of_lt, add_comm, add-mod_right}
use llp_base.OsFile.{World, ok, fault, seek_set}
use llp_base.Schema.{TreeSchema}
use llp_base.Schema.Sizes.{slots, id_array_size, id_array_size-full}
use llp_base.DataFile.Bytes.{schema_bytes}
use llp_base.BaseApi.{append_to_id_array, grow_id_array, set_root}
use llp_base.Store.Slots.{
  IsStore, multiple_pos, push_id, id_array_size-first, push_id-IsSchema, length-push_id,
}
use llp_base.Store.Lookup.{write_tree_schema-IsStore, behind_schema, read_tree_schema-IsStore}

module _ {s : TreeSchema} {area : List ℕ} (w : World) (i : IsStore w.usable w.bytes s area)
    (room : s.meta.cur_id + 1 < slots s.meta.template_size) where
  keeps_place : grow_id_array s (behind_schema w s) ≡ ok s (behind_schema w s)
  unfolding grow_id_array
  keeps_place =
      let size : id_array_size s.meta.template_size s.meta.cur_id ≡ slots s.meta.template_size =
        id_array_size-first i.schema.meta.sizes (omega arith) in
      let next : u64 (s.meta.cur_id + 1) ≡ s.meta.cur_id + 1 =
        omega (arith, i.schema.meta.sizes.ids) in
      let small : (s.meta.cur_id + 1) % slots s.meta.template_size ≡ s.meta.cur_id + 1 =
        mod-eq_of_lt room in
      rw (size, next, small, ne→==-false (s.meta.cur_id + 1) 0 (λ e. omega (arith, e)))

  has_slot : ltb s.meta.cur_id (length s.root) ≡ true
  has_slot =
      lt→ltb _ _
        (omega (arith, i.schema.ids, id_array_size-first i.schema.meta.sizes (omega arith)))

  -- The offset is entered under the next id, and nothing behind the schema changes.
  pub append_to_id_array-IsStore :
      (offset : ℕ)
      → offset < 2 ^ 64
      → s.meta.cur_id + 1 ≤ 2 ^ 40
      → append_to_id_array offset w
        ≡ ok s.meta.cur_id (record w {
          bytes = schema_bytes (push_id s offset) ++ area;
          pos = length (schema_bytes s);
        })
  unfolding append_to_id_array set_root seek_set
  append_to_id_array-IsStore offset word ids =
      let next : u64 (s.meta.cur_id + 1) ≡ s.meta.cur_id + 1 =
        omega (arith, i.schema.meta.sizes.ids) in
      let is = push_id-IsSchema offset i.schema (omega arith) ids word in
      let put = write_tree_schema-IsStore w i (push_id s offset) 0 is (length-push_id s offset) in
      rw (read_tree_schema-IsStore w i, keeps_place, has_slot, next) (unfold push_id in rw put)

-- On a stored tree with ids in use that fill whole node places, the array has no slot for the next id
-- and is not grown: `appendToIdArray` writes outside it.
pub append_to_id_array-full :
    {s : TreeSchema} {area : List ℕ} (w : World) (offset : ℕ)
    → IsStore w.usable w.bytes s area
    → 0 < s.meta.cur_id
    → s.meta.cur_id % slots s.meta.template_size ≡ 0
    → append_to_id_array offset w ≡ fault
unfolding append_to_id_array grow_id_array set_root
append_to_id_array-full {s} w offset i used whole =
    let c : ℕ = s.meta.cur_id in
    let size : id_array_size s.meta.template_size c ≡ c =
      id_array_size-full i.schema.meta.sizes used whole in
    let big : slots s.meta.template_size ≤ c =
      multiple_pos (slots s.meta.template_size) c (omega arith) used whole in
    let next : u64 (c + 1) % c ≡ 1 =
      ap (λ n. n % c) {y = c + 1} (omega (arith, i.schema.meta.sizes.ids))
      ∙ ap (λ n. n % c) (add_comm c 1)
      ∙ add-mod_right 1 c
      ∙ mod-eq_of_lt (omega (arith, big)) in
    let no_slot : ltb c (length s.root) ≡ false =
      le→ltb-false c (length s.root) (omega (arith, i.schema.ids, size)) in
    rw (read_tree_schema-IsStore w i, size, next, no_slot)
