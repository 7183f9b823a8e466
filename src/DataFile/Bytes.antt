-- ===== src/DataFile/Bytes.antt =====
-- The bytes that a schema takes in the file, and what makes a schema one that they can hold.
use llp_base.Common.{
  ℕ, ◌+◌, ◌*◌, ◌^◌, ◌<◌, ◌≤◌, ◌≡◌, refl, List, [], ◌∷◌, ◌++◌, length, length-append, AreWords,
  words_to_le, to_le, length-words_to_le, arith,
}
use llp_base.Schema.{TreeMeta, AttributeInfo, TreeSchema}
use llp_base.Schema.Sizes.{Fits, id_array_size}
use llp_base.DataFile.Read.{attribute_name_room}
use llp_base.DataFile.Write.{meta_bytes, attr_head_bytes}

unfoldable pub attr_bytes : AttributeInfo → List ℕ
attr_bytes a = attr_head_bytes a ++ a.attribute_name

unfoldable pub attrs_bytes : List AttributeInfo → List ℕ
attrs_bytes [] = []
attrs_bytes (a ∷ attrs) = attr_bytes a ++ attrs_bytes attrs

unfoldable pub schema_bytes : TreeSchema → List ℕ
schema_bytes s = meta_bytes s.meta ++ (attrs_bytes s.nodes_template ++ words_to_le s.root)

-- The header tells the name's length, and the allocator gives the block for the name enough room.
pub record IsAttribute (usable : ℕ → ℕ) (a : AttributeInfo) : Type 0 where
  pub named : a.size ≡ length a.attribute_name
  pub not_empty : 0 < a.size
  pub size_word : a.size < 2 ^ 32
  pub type_word : a.type < 2 ^ 32
  pub room : a.size ≤ usable (attribute_name_room a.size)

abbrev pub AreAttributes : (ℕ → ℕ) → List AttributeInfo → Type 0
AreAttributes usable [] = Unit {0}
AreAttributes usable (a ∷ attrs) = IsAttribute usable a × AreAttributes usable attrs

pub record IsMeta (m : TreeMeta) : Type 0 where
  pub sign_word : m.ascii_sign < 2 ^ 64
  pub root_word : m.root_offset < 2 ^ 64
  pub first_word : m.first_seq < 2 ^ 64
  pub second_word : m.second_seq < 2 ^ 64
  pub sizes : Fits m.template_size m.cur_id

-- The template has as many attributes, and the array as many ids, as the meta data say.
pub record IsSchema (usable : ℕ → ℕ) (s : TreeSchema) : Type 0 where
  pub meta : IsMeta s.meta
  pub attrs : AreAttributes usable s.nodes_template
  pub count : s.meta.template_size ≡ length s.nodes_template
  pub ids : length s.root ≡ id_array_size s.meta.template_size s.meta.cur_id
  pub words : AreWords s.root

pub length-meta_bytes : (m : TreeMeta) → length (meta_bytes m) ≡ 48
unfolding meta_bytes
length-meta_bytes m =
    length-words_to_le
      (m.ascii_sign ∷ m.root_offset ∷ m.first_seq ∷ m.second_seq ∷ m.cur_id ∷ m.template_size ∷ [])

pub length-attr_head_bytes : (a : AttributeInfo) → length (attr_head_bytes a) ≡ 8
unfolding attr_head_bytes to_le
length-attr_head_bytes a = refl

pub length-attr_bytes : (a : AttributeInfo) → length (attr_bytes a) ≡ 8 + length a.attribute_name
unfolding attr_bytes
length-attr_bytes a =
    omega (arith, length-append {0} (attr_head_bytes a) a.attribute_name, length-attr_head_bytes a)

pub length-schema_bytes :
    (s : TreeSchema)
    → length (schema_bytes s) ≡ 48 + length (attrs_bytes s.nodes_template) + 8 * length s.root
unfolding schema_bytes
length-schema_bytes s = omega (
  arith,
  length-append {0} (meta_bytes s.meta) (attrs_bytes s.nodes_template ++ words_to_le s.root),
  length-append {0} (attrs_bytes s.nodes_template) (words_to_le s.root),
  length-meta_bytes s.meta,
  length-words_to_le s.root,
)
