-- ===== src/Initializer/Template.antt =====
-- The schema that `createEmptyTreeSchema` makes, and why a file can hold it.
use llp_base.Common.{
  ℕ, zero, suc, ◌+◌, ◌*◌, ◌%◌, ◌^◌, ◌<◌, ◌≤◌, ◌≡◌, refl, sym, ap, List, [], ◌∷◌, ◌++◌, length, take,
  drop, replicate, arith, AreWords, length-append, length-take, length-drop,
}
use llp_base.OsFile.{World, ok}
use llp_base.Schema.{AttributeInfo, TreeSchema}
use llp_base.Schema.Sizes.{id_array_size}
use llp_base.DataFile.{attribute_name_room}
use llp_base.DataFile.Bytes.{attr_bytes, attrs_bytes, AreAttributes, length-attr_bytes}
use llp_base.Initializer.{
  create_empty_tree_meta, copy_str, real_size, create_attribute, create_empty_attr_template,
}

real_size_bounds : (n : ℕ) → (n ≤ real_size n) × (real_size n < n + 4)
unfolding real_size
real_size_bounds n = ground arith

copy_str-ok :
    (src dest : List ℕ) (k n : ℕ) (w : World)
    → k ≤ length src
    → length dest ≡ n
    → k ≤ n
    → copy_str src dest k n w ≡ ok (take k src ++ drop k dest) w
unfolding copy_str
copy_str-ok src dest zero zero w h e l = refl
copy_str-ok src dest zero (suc n) w h e l = refl
copy_str-ok src dest (suc k) zero w h e l = absurd (omega arith)
copy_str-ok [] dest (suc k) (suc n) w h e l = absurd (omega arith)
copy_str-ok (c ∷ src) [] (suc k) (suc n) w h e l = absurd (omega arith)
copy_str-ok (c ∷ src) (d ∷ dest) (suc k) (suc n) w h e l =
    rw (copy_str-ok src dest k n w (omega arith) (omega arith) (omega arith)) refl

pub AreWords-zeros : (n : ℕ) → AreWords (replicate n 0)
AreWords-zeros zero = tt
AreWords-zeros (suc n) = (omega arith, AreWords-zeros n)

module _ (usable : ℕ → ℕ) (fresh : ℕ → List ℕ) where
  -- An attribute that a file can hold: its name has the bytes that its size says, and the allocator
  -- gives the blocks for it enough room.
  pub record IsField (name : List ℕ) (type size : ℕ) : Type 0 where
    pub named : size ≤ length name
    pub not_empty : 0 < size
    pub small : size ≤ 2 ^ 31
    pub type_word : type < 2 ^ 32
    pub block : length (fresh (real_size size)) ≡ real_size size
    pub room : real_size size ≤ usable (attribute_name_room (real_size size))

  abbrev pub AreFields : List (List ℕ) → List ℕ → List ℕ → Type 0
  AreFields [] types sizes = Unit {0}
  AreFields (name ∷ template) (type ∷ types) (size ∷ sizes) =
      IsField name type size × AreFields template types sizes
  AreFields (name ∷ template) _ _ = ⊥

-- The attribute in the file: the name, and behind it what the block held.
abbrev pub new_attribute : (ℕ → List ℕ) → List ℕ → ℕ → ℕ → AttributeInfo
new_attribute fresh name type size = record {
  size = real_size size;
  type = type;
  attribute_name = take size name ++ drop size (fresh (real_size size));
}

unfoldable pub new_attributes : (ℕ → List ℕ) → List (List ℕ) → List ℕ → List ℕ → List AttributeInfo
new_attributes fresh (name ∷ template) (type ∷ types) (size ∷ sizes) =
    new_attribute fresh name type size ∷ new_attributes fresh template types sizes
new_attributes fresh _ _ _ = []

-- The schema of a tree without nodes.
abbrev pub new_tree : (ℕ → List ℕ) → List (List ℕ) → List ℕ → List ℕ → TreeSchema
new_tree fresh template types sizes = record {
  nodes_template = new_attributes fresh template types sizes;
  meta = create_empty_tree_meta (length template);
  root = replicate (id_array_size (length template) 0) 0;
}

module _ (usable : ℕ → ℕ) (fresh : ℕ → List ℕ) where
  length_name :
      (name : List ℕ) (type size : ℕ)
      → IsField usable fresh name type size
      → length (new_attribute fresh name type size).attribute_name ≡ real_size size
  length_name name type size f = omega (
    arith,
    length-append {0} (take size name) (drop size (fresh (real_size size))),
    length-take {0} size name,
    length-drop {0} size (fresh (real_size size)),
    f.block,
    f.named,
    (real_size_bounds size).0,
  )

  create_attribute-ok :
      (name : List ℕ) (type size : ℕ) (w : World)
      → IsField usable fresh name type size
      → create_attribute fresh name type size w ≡ ok (new_attribute fresh name type size) w
  unfolding create_attribute
  create_attribute-ok name type size w f =
      let b = real_size_bounds size in
      let fits : real_size size % 2 ^ 32 ≡ real_size size = omega (arith, b.1, f.small) in
      rw
        (
          copy_str-ok name (fresh (real_size size)) size (real_size size) w f.named f.block b.0,
          fits,
        )
        refl

  pub create_template-ok :
      (template : List (List ℕ)) (types sizes : List ℕ) (w : World)
      → AreFields usable fresh template types sizes
      → create_empty_attr_template fresh template types (length template) sizes w
        ≡ ok (new_attributes fresh template types sizes) w
  unfolding create_empty_attr_template new_attributes
  create_template-ok [] types sizes w f = refl
  create_template-ok (name ∷ template) [] sizes w f = absurd f
  create_template-ok (name ∷ template) (type ∷ types) [] w f = absurd f
  create_template-ok (name ∷ template) (type ∷ types) (size ∷ sizes) w f =
      rw (create_attribute-ok name type size w f.0, create_template-ok template types sizes w f.1)
        refl

  pub new_attributes-AreAttributes :
      (template : List (List ℕ)) (types sizes : List ℕ)
      → AreFields usable fresh template types sizes
      → AreAttributes usable (new_attributes fresh template types sizes)
  unfolding new_attributes
  new_attributes-AreAttributes [] types sizes f = tt
  new_attributes-AreAttributes (name ∷ template) [] sizes f = absurd f
  new_attributes-AreAttributes (name ∷ template) (type ∷ types) [] f = absurd f
  new_attributes-AreAttributes (name ∷ template) (type ∷ types) (size ∷ sizes) f =
      let b = real_size_bounds size in
      (
        record {
          named = sym (length_name name type size f.0);
          not_empty = omega (arith, b.0, f.0.not_empty);
          size_word = omega (arith, b.1, f.0.small);
          type_word = f.0.type_word;
          room = f.0.room;
        },
        new_attributes-AreAttributes template types sizes f.1,
      )

  pub length-new_attributes :
      (template : List (List ℕ)) (types sizes : List ℕ)
      → AreFields usable fresh template types sizes
      → length (new_attributes fresh template types sizes) ≡ length template
  unfolding new_attributes
  length-new_attributes [] types sizes f = refl
  length-new_attributes (name ∷ template) [] sizes f = absurd f
  length-new_attributes (name ∷ template) (type ∷ types) [] f = absurd f
  length-new_attributes (name ∷ template) (type ∷ types) (size ∷ sizes) f =
      ap suc (length-new_attributes template types sizes f.1)

  pub length-attrs_bytes :
      (template : List (List ℕ)) (types sizes : List ℕ)
      → AreFields usable fresh template types sizes
      → length (attrs_bytes (new_attributes fresh template types sizes)) ≤ 2 ^ 33 * length template
  unfolding new_attributes attrs_bytes
  length-attrs_bytes [] types sizes f = omega arith
  length-attrs_bytes (name ∷ template) [] sizes f = absurd f
  length-attrs_bytes (name ∷ template) (type ∷ types) [] f = absurd f
  length-attrs_bytes (name ∷ template) (type ∷ types) (size ∷ sizes) f = omega (
    arith,
    length-append {0} (attr_bytes (new_attribute fresh name type size))
        (attrs_bytes (new_attributes fresh template types sizes)),
    length-attr_bytes (new_attribute fresh name type size),
    length_name name type size f.0,
    (real_size_bounds size).1,
    f.0.small,
    length-attrs_bytes template types sizes f.1,
  )
