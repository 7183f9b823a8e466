-- ===== src/Store/Search.antt =====
-- `findByParent` and `findByField` on a stored tree without string attributes.
use llp_base.Common.{
  ℕ, zero, suc, ◌+◌, ◌-◌, ◌^◌, ◌<◌, ◌≡◌, refl, sym, ap, ◌∙◌, inl, inr, Bool, false, Option, none,
  some, List, [], ◌∷◌, ◌++◌, length, take, append-nil, get_elem?, ◌==◌, if◌then◌else◌, arith,
  Bool-cases, ne→==-false, lt→ltb, words_from_le, words_to_le,
}
use mathlib.Core.Path.{subst}
use llp_base.OsFile.{World, Io, ok, seek_set}
use llp_base.Schema.{KeyNode, TreeSchema, string_type}
use llp_base.DataFile.Bytes.{schema_bytes, length-schema_bytes}
use llp_base.Inner.{
  ResultSet, word, scan, find_by_parent, find_by_field, field_matches, append_to_result_set,
}
use llp_base.Store.Slots.{IsStore, NoStrings, types_of}
use llp_base.Store.Lookup.{behind_schema, read_tree_schema-IsStore, get_types-IsStore}
use llp_base.Store.Get.{Reads, read_node-header, contents_words, count_of_types, data_read}
use llp_base.Store.Tree.{TreeNode, IsPlaced, Holds}

-- The ids of the nodes that pass a test, the first of them being `i`.
unfoldable pub matching : (TreeNode → Bool) → ℕ → List TreeNode → List ℕ
matching pass i [] = []
matching pass i (n ∷ nodes) =
    let rest = matching pass (i + 1) nodes in if pass n then i ∷ rest else rest

-- The ids of a result set, the last one found first, in the order they were found in.
unfoldable pub found_ids : ResultSet → List ℕ → List ℕ
found_ids [] later = later
found_ids (r ∷ set) later = found_ids set (r.id ∷ later)

abbrev pub AllPlaced : World → TreeSchema → ℕ → List TreeNode → Type 0
AllPlaced w s i [] = Unit {0}
AllPlaced w s i (n ∷ nodes) = IsPlaced w s i n × AllPlaced w s (i + 1) nodes

pub Holds-AllPlaced :
    (w : World) (s : TreeSchema) (i : ℕ) (nodes : List TreeNode)
    → ((k : ℕ) (n : TreeNode) → get_elem? nodes k ≡ some n → IsPlaced w s (i + k) n)
    → AllPlaced w s i nodes
Holds-AllPlaced w s i [] h = tt
Holds-AllPlaced w s i (n ∷ nodes) h = (
  subst (λ id. IsPlaced w s id n) {x = i + 0} (omega arith) (h 0 n refl),
  Holds-AllPlaced w s (i + 1) nodes
      (λ k m e. subst (λ id. IsPlaced w s id m) {x = i + suc k} (omega arith) (h (suc k) m e)),
)

-- A test of a node in memory that tells what `pass` does of its parent and its values.
abbrev pub Tells : (KeyNode → Io Bool) → (TreeNode → Bool) → List ℕ → Type 0
Tells test pass types =
    (n : TreeNode) (node : KeyNode) (more : List ℕ) (w : World)
    → length n.values ≡ length types
    → node.header.parent ≡ n.parent
    → words_from_le node.contents ≡ n.values ++ more
    → test node w ≡ ok (pass n) w

module _ (w : World) {s : TreeSchema} {area : List ℕ} (store : IsStore w.usable w.bytes s area)
    (test : KeyNode → Io Bool) (pass : TreeNode → Bool) (tells : Tells test pass (types_of s)) where
  pub scan-ids :
      (nodes : List TreeNode) (i q : ℕ) (set : ResultSet)
      → AllPlaced w s i nodes
      → (rs : ResultSet) × Reads (scan test s (length nodes) i set (record w { pos = q })) rs w
        × ((later : List ℕ) → found_ids rs later ≡ found_ids set (matching pass i nodes ++ later))
  unfolding scan matching found_ids seek_set append_to_result_set
  scan-ids [] i q set h = (set, (q, refl), λ later. refl)
  scan-ids (n ∷ nodes) i q set (p, h) =
      let w2 : World = record w { pos = p.offset } in
      let t : ℕ = s.meta.template_size in
      let (st, (pos, r)) =
        read_node-header t w2 (record { parent = n.parent; alloc = i })
          (words_to_le n.values ++ p.node.more) p.node.parent_word p.node.alloc_word p.node.here in
      let node : KeyNode = record {
        header = record { parent = n.parent; alloc = i };
        contents = take (data_read t) (words_to_le n.values ++ p.node.more);
      } in
      let w3 : World = record w { pos = pos } in
      let told =
        tells n node
          (words_from_le (take (data_read t - length (words_to_le n.values)) p.node.more)) w3 p.full
          refl
          (contents_words t n.values p.node.more store.schema.meta.sizes.attrs
            (count_of_types n.values store p.full) p.node.values_words) in
      let present = ne→==-false p.offset 0 (λ e. omega (arith, e, p.low, length-schema_bytes s)) in
      let inside = lt→ltb p.offset (2 ^ 63) (omega (arith, p.high, store.small)) in
      elim (Bool-cases (pass n)) [
        | inl e ↦
            let (rs, (pos', found), ids) =
              scan-ids nodes (i + 1) pos (record { value = node; id = i } ∷ set) h in
            (rs, (pos', rw (p.slot, present, inside, r, told, e) found), λ later. rw e (ids later))
        | inr e ↦
            let (rs, (pos', found), ids) = scan-ids nodes (i + 1) pos set h in
            (rs, (pos', rw (p.slot, present, inside, r, told, e) found), λ later. rw e (ids later))
      ]

pub get_values :
    (values more : List ℕ) (i : ℕ)
    → i < length values
    → (v : ℕ) × (get_elem? values i ≡ some v) × (get_elem? (values ++ more) i ≡ some v)
get_values [] more i h = absurd (omega arith)
get_values (v ∷ values) more zero h = (v, refl, refl)
get_values (v ∷ values) more (suc i) h = get_values values more i (omega arith)

pub get_types_of :
    (types : List ℕ) (i : ℕ)
    → NoStrings types
    → i < length types
    → (type : ℕ) × (get_elem? types i ≡ some type) × ((type == string_type) ≡ false)
get_types_of [] i ns h = absurd (omega arith)
get_types_of (type ∷ types) zero ns h = (type, refl, ns.0)
get_types_of (type ∷ types) (suc i) ns h = get_types_of types i ns.1 (omega arith)

abbrev is_value : ℕ → Option ℕ → Bool
is_value v none = false
is_value v (some u) = u == v

-- Whether a node's value of the attribute `i` is `v`.
abbrev pub has_value : ℕ → ℕ → TreeNode → Bool
has_value i v n = is_value v (get_elem? n.values i)

field_matches-Tells :
    (fuel size type i v : ℕ) (types : List ℕ)
    → (type == string_type) ≡ false
    → i < length types
    → Tells (field_matches fuel size type i (word v)) (has_value i v) types
unfolding field_matches
field_matches-Tells fuel size type i v types number inside n node more w full e k =
    let (u, here, there) = get_values n.values more i (omega (arith, inside, full)) in
    rw (k, there, number) (ap (λ o. ok (is_value v o) w) (sym here))

module _ {w : World} {types : List ℕ} {nodes : List TreeNode} (h : Holds w types nodes) where
  all_placed : AllPlaced w h.tree 0 nodes
  all_placed =
      Holds-AllPlaced w h.tree 0 nodes
        (λ k n e. subst (λ id. IsPlaced w h.tree id n) {x = k} (omega arith) (h.placed k n e))

  -- On a stored tree without string attributes `findByParent` finds the nodes that have the parent, each once and in the order of their ids, and
  -- changes nothing but the stream's position.
  pub find_by_parent-Holds :
      (parent : ℕ)
      → (rs : ResultSet) × Reads (find_by_parent parent [] w) rs w
        × (found_ids rs [] ≡ matching (λ n. n.parent == parent) 0 nodes)
  unfolding find_by_parent
  find_by_parent-Holds parent =
      let test : KeyNode → Io Bool = λ node. ok (node.header.parent == parent) in
      let pass : TreeNode → Bool = λ n. n.parent == parent in
      let (rs, (pos, found), ids) =
        scan-ids w h.store test pass (λ n node more w' full e k. rw e refl) nodes 0
          (length (schema_bytes h.tree)) [] all_placed in
      (
        rs,
        (
          pos,
          rw (read_tree_schema-IsStore w h.store)
              (ap (λ k. scan test h.tree k 0 [] (behind_schema w h.tree)) h.count ∙ found),
        ),
        unfold found_ids in ids [] ∙ append-nil (matching pass 0 nodes),
      )

  -- On a stored tree without string attributes `findByField`, of an attribute of the template, finds
  -- the nodes whose value of the attribute is the given one, each once and in
  -- the order of their ids, and changes nothing but the stream's position.
  pub find_by_field-Holds :
      (fuel i v : ℕ)
      → i < length types
      → (rs : ResultSet) × Reads (find_by_field fuel i (word v) [] w) rs w
        × (found_ids rs [] ≡ matching (has_value i v) 0 nodes)
  unfolding find_by_field
  find_by_field-Holds fuel i v inside =
      let inside' : i < length (types_of h.tree) = omega (arith, inside, ap length h.typed) in
      let (type, typed, number) = get_types_of (types_of h.tree) i h.no_strings inside' in
      let test = field_matches fuel h.tree.meta.template_size type i (word v) in
      let (rs, (pos, found), ids) =
        scan-ids w h.store test (has_value i v)
          (field_matches-Tells fuel h.tree.meta.template_size type i v (types_of h.tree) number
            inside')
          nodes 0 (length (schema_bytes h.tree)) [] all_placed in
      (
        rs,
        (
          pos,
          rw
              (
                get_types-IsStore w h.store,
                typed,
                read_tree_schema-IsStore (behind_schema w h.tree) h.store,
              )
              (ap (λ k. scan test h.tree k 0 [] (behind_schema w h.tree)) h.count ∙ found),
        ),
        unfold found_ids in ids [] ∙ append-nil (matching (has_value i v) 0 nodes),
      )
