-- ===== src/Store/Filtered.antt =====
-- `storageFindNodeByFilters` on a stored tree without string attributes.
pub mod Scan
use mathlib.Core.Path.{subst}
use llp_base.Common.{
  ℕ, zero, suc, ◌+◌, ◌<◌, ◌≤◌, ◌≡◌, refl, sym, ap, ◌∙◌, ◌⊎◌, inl, inr, Option, none, some, Bool,
  true, false, not, List, [], ◌∷◌, ◌++◌, length, take, get_elem?, append-nil, length-take, arith,
  codes, words_from_le,
}
use llp_base.OsFile.{World, ok}
use llp_base.Schema.{KeyNode, TreeSchema}
use llp_base.DataFile.Bytes.{schema_bytes}
use llp_base.Inner.{ResultSet, scan, str_equal}
use llp_base.Message.{Comparator, Filter}
use llp_base.Text.{c_string}
use llp_base.Public.{
  char_array, last_field, number_fails, comparator_fails, single_comparator, key_is,
  storage_find_node_by_filters,
}
use llp_base.Public.Matching.{all_hold, Evaluated, AllEvaluated, passes_filters-all_hold}
use llp_base.Store.Slots.{NoStrings, types_of}
use llp_base.Store.Lookup.{behind_schema, read_tree_schema-IsStore, get_types-IsStore}
use llp_base.Store.Get.{Reads}
use llp_base.Store.Tree.{TreeNode, IsPlaced, Holds, template_size-length}
use llp_base.Store.Search.{
  matching, found_ids, AllPlaced, Holds-AllPlaced, Tells, scan-ids, get_values, get_types_of,
}
use llp_base.Store.Filtered.Scan.{passing, scan_filters-scan}

abbrev pub compares : Comparator → Option ℕ → Bool
compares c none = false
compares c (some v) = not (number_fails c.operation v c.kv.value_int)

not-not : (b : Bool) → not (not b) ≡ b
not-not true = refl
not-not false = refl

module _ (index : Comparator → ℕ) where
  -- Whether a node's value of the comparator's attribute stands in the asked relation to the number.
  abbrev pub satisfies : TreeNode → Comparator → Bool
  satisfies n c = compares c (get_elem? n.values (index c))

  -- The comparator's key names the attribute `index c`.
  pub record IsNamed (types : List ℕ) (names : List (List ℕ)) (c : Comparator) : Type 0 where
    pub inside : index c < length types
    pub named :
        (w : World) → last_field (char_array c.kv.key) names 0 none w ≡ ok (some (index c)) w

  abbrev pub AreNamed : List ℕ → List (List ℕ) → List Comparator → Type 0
  AreNamed types names [] = Unit {0}
  AreNamed types names (c ∷ cs) = IsNamed types names c × AreNamed types names cs

  -- Filters of fewer than 256 comparators, each of which names an attribute.
  abbrev pub AreFilters : List ℕ → List (List ℕ) → List Filter → Type 0
  AreFilters types names [] = Unit {0}
  AreFilters types names (f ∷ fs) =
      (length f.comp_list < 256) × AreNamed types names f.comp_list × AreFilters types names fs

  module _ (fuel size : ℕ) (types : List ℕ) (names : List (List ℕ)) (ns : NoStrings types)
      (n : TreeNode) (node : KeyNode) (more : List ℕ) (w : World)
      (full : length n.values ≡ length types)
      (words : words_from_le node.contents ≡ n.values ++ more) where
    comparator_fails-satisfies :
        (c : Comparator)
        → IsNamed types names c
        → comparator_fails fuel types size names node c w ≡ ok (some (not (satisfies n c))) w
    unfolding comparator_fails
    comparator_fails-satisfies c named =
        let (type, typed, number) = get_types_of types (index c) ns named.inside in
        let (v, here, there) =
          get_values n.values more (index c) (omega (arith, full, named.inside)) in
        rw (named.named w, typed, words, there, number)
          (ap (λ b. ok (some b) w)
            (sym (
              ap (λ o. not (compares c o)) here
              ∙ not-not (number_fails c.operation v c.kv.value_int))))

    named-Evaluated :
        (cs : List Comparator)
        → AreNamed types names cs
        → Evaluated (satisfies n) fuel types size names node w cs
    named-Evaluated [] h = tt
    named-Evaluated (c ∷ cs) h = (comparator_fails-satisfies c h.0, named-Evaluated cs h.1)

    filters-AllEvaluated :
        (fs : List Filter)
        → AreFilters types names fs
        → AllEvaluated (satisfies n) fuel types size names node w fs
    filters-AllEvaluated [] h = tt
    filters-AllEvaluated (f ∷ fs) h =
        (h.0, named-Evaluated f.comp_list h.1, filters-AllEvaluated fs h.2)

  passing-Tells :
      (fuel : ℕ) (names : List (List ℕ)) (f : Filter) (fs : List Filter) (s : TreeSchema)
      → NoStrings (types_of s)
      → AreFilters (types_of s) names (f ∷ fs)
      → Tells
          (passing fuel (types_of s) names (f ∷ fs) s)
          (λ n. all_hold (satisfies n) (f ∷ fs))
          (types_of s)
  passing-Tells fuel names f fs s ns h n node more w full _ words =
      rw
        (passes_filters-all_hold (satisfies n) fuel (types_of s) s.meta.template_size names node w f
          fs
          (filters-AllEvaluated fuel s.meta.template_size (types_of s) names ns n node more w full
            words (f ∷ fs) h))
        refl

take-get :
    (k : ℕ) (nodes : List TreeNode) (i : ℕ) (n : TreeNode)
    → get_elem? (take k nodes) i ≡ some n
    → get_elem? nodes i ≡ some n
take-get zero nodes i n e = cc e
take-get (suc k) [] i n e = e
take-get (suc k) (m ∷ nodes) zero n e = e
take-get (suc k) (m ∷ nodes) (suc i) n e = take-get k nodes i n e

-- The query is not one for the children of a node, or for a node by its id.
abbrev pub IsByFilters : List Filter → Type 0
IsByFilters filters =
    (single_comparator filters ≡ none)
    ⊎ ((c : Comparator) × (single_comparator filters ≡ some c)
        × (str_equal (char_array c.kv.key) (c_string (codes "parent")) ≡ some false)
        × (str_equal (char_array c.kv.key) (c_string (codes "id")) ≡ some false))

module _ {w : World} {types : List ℕ} {nodes : List TreeNode} (h : Holds w types nodes)
    (index : Comparator → ℕ) (names : List (List ℕ)) (f : Filter) (fs : List Filter)
    (filters : AreFilters index types names (f ∷ fs)) (enough : length types ≤ length nodes)
    (by_filters : IsByFilters (f ∷ fs)) where
  abbrev pass : TreeNode → Bool
  pass n = all_hold (satisfies index n) (f ∷ fs)

  pub storage_find_node_by_filters-Holds :
      (fuel : ℕ)
      → (rs : ResultSet) × Reads (storage_find_node_by_filters fuel (f ∷ fs) [] names w) (some rs) w
        × (found_ids rs []
            ≡ matching (λ n. all_hold (satisfies index n) (f ∷ fs)) 0 (take (length types) nodes))
  unfolding storage_find_node_by_filters key_is
  storage_find_node_by_filters-Holds fuel =
      let s : TreeSchema = h.tree in
      let some_nodes : List TreeNode = take (length types) nodes in
      let placed : AllPlaced w s 0 some_nodes = Holds-AllPlaced w s 0 some_nodes (λ k n e.
        subst (λ id. IsPlaced w s id n) {x = k} (omega arith)
          (h.placed k n (take-get (length types) nodes k n e))) in
      let tells =
        passing-Tells index fuel names f fs s h.no_strings
          (subst (λ t. AreFilters index t names (f ∷ fs)) (sym h.typed) filters) in
      let (rs, (p, found), ids) =
        scan-ids w h.store (passing fuel (types_of s) names (f ∷ fs) s) pass tells some_nodes 0
          (length (schema_bytes s)) [] placed in
      let left : length some_nodes ≡ s.meta.template_size =
        omega (arith, length-take {0} (length types) nodes, enough, template_size-length h) in
      let filtered =
        scan_filters-scan fuel (types_of s) names (f ∷ fs) s s.meta.template_size 0 [] rs
          (behind_schema w s) (record w { pos = p })
          (ap (λ k. scan (passing fuel (types_of s) names (f ∷ fs) s) s k 0 [] (behind_schema w s))
              (sym left)
            ∙ found) in
      let types_read = get_types-IsStore w h.store in
      let schema_read = read_tree_schema-IsStore (behind_schema w s) h.store in
      (
        rs,
        (
          p,
          elim by_filters [
            | inl e ↦ rw (types_read, schema_read, e) filtered
            | inr (c, e, no_parent, no_id) ↦
                rw (types_read, schema_read, e, no_parent, no_id) filtered
          ],
        ),
        unfold found_ids in ids [] ∙ append-nil (matching pass 0 some_nodes),
      )
