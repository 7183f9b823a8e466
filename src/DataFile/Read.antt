-- ===== src/DataFile/Read.antt =====
-- The reading half of dataFile.c.
use llp_base.Common.{
  ℕ, zero, suc, ◌+◌, ◌*◌, ◌/◌, ◌%◌, Option, none, some, List, [], ◌∷◌, ◌++◌, length, take, drop,
  replicate, ltb, ◌==◌, u64, from_le, words_from_le, if◌then◌else◌,
}
use llp_base.OsFile.{
  Io, pure, undefined, no_fuel, ◌>>=◌, ◌>>◌, ReadStatus, or_read, seek_set, usable_size, read_file,
}
use llp_base.Schema.{
  TreeMeta, AttributeInfo, TreeSchema, NodeHeader, KeyNode, next_node, meta_size, attr_head_size,
  node_head_size,
}
use llp_base.Schema.Sizes.{real_node_size, id_array_size, file_granularity}

-- The bytes that `readAttribute` asks for to hold a name of `size` bytes.
unfoldable pub attribute_name_room : ℕ → ℕ
attribute_name_room size =
    size / file_granularity + (if size % file_granularity == 0 then 0 else file_granularity)

unfoldable pub read_attribute : Io (ReadStatus × AttributeInfo)
unfolding attribute_name_room
read_attribute = do
  (ret, head) ← read_file attr_head_size
  if ltb (length head) attr_head_size then undefined else do
    let size = from_le (take 4 head)
    let type = from_le (take 4 (drop 4 head))
    room ← usable_size (attribute_name_room size)
    (status, name) ← read_file size
    if ltb room (length name)
        then undefined
        else pure (or_read ret status, record { size = size; type = type; attribute_name = name })

-- The loop of `readTreeSchema` over the template.
unfoldable pub read_attributes : ℕ → ReadStatus → Io (ReadStatus × List AttributeInfo)
read_attributes zero ret = pure (ret, [])
read_attributes (suc n) ret = do
  (status, attr) ← read_attribute
  (ret', attrs) ← read_attributes n (or_read ret status)
  pure (ret', attr ∷ attrs)

unfoldable pub meta_of_words : List ℕ → Io TreeMeta
meta_of_words (a ∷ b ∷ c ∷ d ∷ e ∷ f ∷ _) = pure (record {
  ascii_sign = a;
  root_offset = b;
  first_seq = c;
  second_seq = d;
  cur_id = e;
  template_size = f;
})
meta_of_words _ = undefined

unfoldable pub read_tree_meta : Io (ReadStatus × TreeMeta)
unfolding meta_of_words
read_tree_meta = do
  (ret, buffer) ← read_file meta_size
  meta ← meta_of_words (words_from_le buffer)
  pure (ret, meta)

unfoldable pub read_tree_schema : Io (ReadStatus × TreeSchema)
unfolding read_attributes meta_of_words
read_tree_schema = do
  seek_set 0
  (ret, meta) ← read_tree_meta
  (ret', attrs) ← read_attributes meta.template_size ret
  (status, buffer) ← read_file (u64 (id_array_size meta.template_size meta.cur_id * 8))
  let root = words_from_le buffer
  pure (or_read ret' status, record { nodes_template = attrs; meta = meta; root = root })

unfoldable pub header_of_words : List ℕ → Io NodeHeader
header_of_words (a ∷ b ∷ _) = pure (record { parent = a; alloc = b })
header_of_words _ = undefined

-- Whether the node is a string node changes only how `data` is allocated, with the same size.
unfoldable pub read_node : ℕ → Io (ReadStatus × KeyNode)
unfolding header_of_words
read_node size = do
  (ret, head) ← read_file node_head_size
  header ← header_of_words (words_from_le head)
  (status, contents) ← read_file (real_node_size (real_node_size size))
  pure (or_read ret status, record { header = header; contents = contents })

-- `header` keeps what a short read does not overwrite.
unfoldable pub chain_length : ℕ → List ℕ → ℕ → Io ℕ
unfolding header_of_words
chain_length zero buffer n = no_fuel
chain_length (suc fuel) buffer n = do
  header ← header_of_words (words_from_le buffer)
  if next_node header == 0 then pure n else do
    seek_set (next_node header)
    (_, got) ← read_file node_head_size
    chain_length fuel (got ++ drop (length got) buffer) (n + 1)

-- `getStringLenght`: how many nodes the chain from `offset` has.
unfoldable pub string_length : ℕ → ℕ → Io ℕ
unfolding chain_length
string_length fuel offset = do
  seek_set offset
  (_, got) ← read_file node_head_size
  chain_length fuel got 1

-- `strncpy(dest, src, n)`: what it writes, or `none` when it reads past what is set.
unfoldable pub strncpy : ℕ → List ℕ → Option (List ℕ)
strncpy zero src = some []
strncpy (suc n) [] = none
strncpy (suc n) (zero ∷ src) = some (replicate (suc n) 0)
strncpy (suc n) (suc c ∷ src) = elim (strncpy n src) [ none ↦ none | some cs ↦ some (suc c ∷ cs) ]

abbrev pub defined : {A : Type 0} → Option A → Io A
defined none = undefined
defined (some a) = pure a

-- The loop of `readStringFromNode`, with the rounds left.
unfoldable pub read_chain : ℕ → ℕ → ℕ → Io (List ℕ)
read_chain zero size offset = pure []
read_chain (suc n) size offset = do
  seek_set offset
  (_, node) ← read_node size
  chars ← defined (strncpy (real_node_size size) node.contents)
  rest ← read_chain n size (next_node node.header)
  pure (chars ++ rest)

-- The buffer that `*string` points at.
unfoldable pub read_string_from_node : ℕ → ℕ → ℕ → Io (List ℕ)
unfolding read_chain
read_string_from_node fuel size offset = do n ← string_length fuel offset; read_chain n size offset
