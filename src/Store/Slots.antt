-- ===== src/Store/Slots.antt =====
-- The shape of a stored tree, and the schema after a node is added.
use llp_base.Common.{
  ℕ, zero, suc, ◌+◌, ◌%◌, ◌^◌, ◌≤◌, ◌<◌, ◌≡◌, ◌∙◌, ◌⊎◌, inl, inr, false, List, [], ◌∷◌, ◌++◌, map,
  length, drop, set, length-set, sym, arith, ◌==◌, AreWords, words_to_le,
}
use native.Mathlib.Nat.{mod-eq_of_lt, mod_self}
use llp_base.Schema.{TreeSchema, NodeHeader, string_type}
use llp_base.Schema.Sizes.{Fits, slots, id_array_size, id_array_size_bounds, multiple_unique}
use llp_base.DataFile.Bytes.{IsSchema, schema_bytes, length-schema_bytes}
use llp_base.DataFile.{node_head_bytes}
use llp_base.BaseApi.{attribute_type}

-- The file is a schema and, behind it, the area of the nodes.
pub record IsStore (usable : ℕ → ℕ) (bytes : List ℕ) (s : TreeSchema) (area : List ℕ) : Type 0 where
  pub schema : IsSchema usable s
  pub layout : bytes ≡ schema_bytes s ++ area
  pub small : length bytes < 2 ^ 62

-- At an offset stands a node with this header and these values.
pub record NodeAt (bytes : List ℕ) (offset : ℕ) (h : NodeHeader) (values : List ℕ) : Type 0 where
  pub more : List ℕ
  pub here : drop offset bytes ≡ node_head_bytes h ++ (words_to_le values ++ more)
  pub parent_word : h.parent < 2 ^ 64
  pub alloc_word : h.alloc < 2 ^ 64
  pub values_words : AreWords values

abbrev pub NoStrings : List ℕ → Type 0
NoStrings [] = Unit {0}
NoStrings (type ∷ types) = ((type == string_type) ≡ false) × NoStrings types

abbrev pub types_of : TreeSchema → List ℕ
types_of s = map attribute_type s.nodes_template

-- The schema once `offset` is entered under the next id.
unfoldable pub push_id : TreeSchema → ℕ → TreeSchema
push_id s offset = record s {
  root = set s.root s.meta.cur_id offset;
  meta = record s.meta { cur_id = s.meta.cur_id + 1 };
}

pub multiple_pos : (s a : ℕ) → 0 < s → 0 < a → a % s ≡ 0 → s ≤ a
multiple_pos s a h p e = elim (cases s a) [
  | inl le ↦ le
  | inr lt ↦ absurd (omega (arith, mod-eq_of_lt lt, e))
]
  where
    cases : (s a : ℕ) → (s ≤ a) ⊎ (a < s)
    cases s a = omega arith

-- Up to as many ids as one node's place holds, the array keeps that size.
pub id_array_size-first : {t c : ℕ} → Fits t c → c ≤ slots t → id_array_size t c ≡ slots t
id_array_size-first {t} {c} f h =
    let b = id_array_size_bounds f in
    let up : slots t ≤ id_array_size t c =
      multiple_pos (slots t) (id_array_size t c) (omega arith) (omega (arith, b.0)) b.2 in
    multiple_unique (slots t) (slots t) (id_array_size t c) (omega arith) up (omega (arith, b.1))
      (mod_self (slots t)) b.2

pub AreWords-set : (ws : List ℕ) (i n : ℕ) → AreWords ws → n < 2 ^ 64 → AreWords (set ws i n)
AreWords-set [] i n h k = tt
AreWords-set (w ∷ ws) zero n h k = (k, h.1)
AreWords-set (w ∷ ws) (suc i) n h k = (h.0, AreWords-set ws i n h.1 k)

pub push_id-IsSchema :
    {usable : ℕ → ℕ} {s : TreeSchema} (offset : ℕ)
    → IsSchema usable s
    → s.meta.cur_id + 1 ≤ slots s.meta.template_size
    → s.meta.cur_id + 1 ≤ 2 ^ 40
    → offset < 2 ^ 64
    → IsSchema usable (push_id s offset)
unfolding push_id
push_id-IsSchema {s} offset i room ids word =
    let fits : Fits s.meta.template_size (s.meta.cur_id + 1) = record {
      attrs = i.meta.sizes.attrs;
      ids = ids;
    } in
    record {
      meta = record {
        sign_word = i.meta.sign_word;
        root_word = i.meta.root_word;
        first_word = i.meta.first_word;
        second_word = i.meta.second_word;
        sizes = fits;
      };
      attrs = i.attrs;
      count = i.count;
      ids =
          length-set s.root s.meta.cur_id offset
          ∙ i.ids
          ∙ id_array_size-first i.meta.sizes (omega arith)
          ∙ sym (id_array_size-first fits room);
      words = AreWords-set s.root s.meta.cur_id offset i.words word;
    }

pub length-push_id :
    (s : TreeSchema) (offset : ℕ)
    → length (schema_bytes (push_id s offset)) ≡ length (schema_bytes s)
unfolding push_id
length-push_id s offset = omega (
  arith,
  length-schema_bytes s,
  length-schema_bytes (push_id s offset),
  length-set {0} s.root s.meta.cur_id offset,
)
