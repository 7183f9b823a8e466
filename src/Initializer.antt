-- ===== src/Initializer.antt =====
-- storage/Utils/initializer.c, and `initEmptyFile` of storage/DataFileAPI/dataFile.c, which makes the
-- first schema of a file.
pub mod Template
pub mod EmptyFile
use llp_base.Common.{
  ℕ, zero, suc, ◌+◌, ◌*◌, ◌/◌, ◌%◌, ◌^◌, List, [], ◌∷◌, replicate, ◌==◌, if◌then◌else◌,
}
use llp_base.OsFile.{Io, pure, undefined, ◌>>=◌, ◌>>◌, WriteStatus, seek_set}
use llp_base.Schema.{TreeMeta, AttributeInfo, TreeSchema}
use llp_base.Schema.Sizes.{id_array_size, file_granularity}
use llp_base.DataFile.{write_tree_schema}

unfoldable pub create_empty_tree_meta : ℕ → TreeMeta
create_empty_tree_meta size = record {
  ascii_sign = 0xfffe;
  root_offset = 0;
  first_seq = 0;
  second_seq = 0;
  cur_id = 0;
  template_size = size;
}

-- What `dest` holds afterwards; `src` and `dest` are what of the two blocks may be accessed.
unfoldable pub copy_str : List ℕ → List ℕ → ℕ → ℕ → Io (List ℕ)
copy_str src dest src_size zero = pure dest
copy_str src dest zero (suc n) = pure dest
copy_str (c ∷ src) (d ∷ dest) (suc k) (suc n) = do rest ← copy_str src dest k n; pure (c ∷ rest)
copy_str _ _ (suc k) (suc n) = undefined

-- The size of a name, rounded up to whole granules.
unfoldable pub real_size : ℕ → ℕ
real_size size =
    size / file_granularity * file_granularity
    + (if size % file_granularity == 0 then 0 else file_granularity)

module _ (fresh : ℕ → List ℕ) where
  -- One attribute; `fresh n` is what a block holds that `malloc(n)` returns.
  unfoldable pub create_attribute : List ℕ → ℕ → ℕ → Io AttributeInfo
  unfolding copy_str
  create_attribute name type size = do
    appended_string ← copy_str name (fresh (real_size size)) size (real_size size)
    pure (record { size = real_size size % 2 ^ 32; type = type; attribute_name = appended_string })

  -- The three arrays are read up to the template's size.
  unfoldable pub create_empty_attr_template :
      List (List ℕ) → List ℕ → ℕ → List ℕ → Io (List AttributeInfo)
  unfolding create_attribute
  create_empty_attr_template template types zero attr_sizes = pure []
  create_empty_attr_template (name ∷ template) (type ∷ types) (suc n) (size ∷ attr_sizes) = do
    attr ← create_attribute name type size
    attrs ← create_empty_attr_template template types n attr_sizes
    pure (attr ∷ attrs)
  create_empty_attr_template _ _ (suc n) _ = undefined

  unfoldable pub create_empty_tree_schema : List (List ℕ) → List ℕ → ℕ → List ℕ → Io TreeSchema
  create_empty_tree_schema template types template_size attr_sizes = do
    attrs ← create_empty_attr_template template types template_size attr_sizes
    pure (record {
      nodes_template = attrs;
      meta = create_empty_tree_meta template_size;
      root =
          replicate
            (id_array_size (create_empty_tree_meta template_size).template_size
              (create_empty_tree_meta template_size).cur_id)
            0;
    })

  unfoldable pub init_empty_file : List (List ℕ) → List ℕ → ℕ → List ℕ → Io WriteStatus
  init_empty_file template types template_size attr_sizes = do
    seek_set 0
    schema ← create_empty_tree_schema template types template_size attr_sizes
    write_tree_schema schema
