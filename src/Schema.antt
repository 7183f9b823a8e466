-- ===== src/Schema.antt =====
-- storage/tree_schema/schema.h and storage/tree_node/node.h: what the file holds; and the two sizes
-- that storage/DataFileAPI/dataFile.c computes from a schema.
pub mod Sizes
use llp_base.Common.{ℕ, List}

-- `ASCIISign`, `firstSeq` and `secondSeq` are written and never used.
pub record TreeMeta : Type 0 where
  pub ascii_sign : ℕ
  pub root_offset : ℕ
  pub first_seq : ℕ
  pub second_seq : ℕ
  pub cur_id : ℕ
  pub template_size : ℕ

-- `struct attributeHeader` with the name that `struct nodeAttributeInfo` holds beside it: the bytes
-- of the name that are set.
pub record AttributeInfo : Type 0 where
  pub size : ℕ
  pub type : ℕ
  pub attribute_name : List ℕ

-- `root` is the array of the nodes' offsets, by id: the words of it that are set.
pub record TreeSchema : Type 0 where
  pub nodes_template : List AttributeInfo
  pub meta : TreeMeta
  pub root : List ℕ

-- `union nodeHeader`: `parent` is `parentNode` and `prevNode`, `alloc` is `allocNode` and `nextNode`.
pub record NodeHeader : Type 0 where
  pub parent : ℕ
  pub alloc : ℕ

abbrev pub prev_node : NodeHeader → ℕ
prev_node h = h.parent

abbrev pub next_node : NodeHeader → ℕ
next_node h = h.alloc

-- `contents` is what `data` points at: the bytes that are set.
pub record KeyNode : Type 0 where
  pub header : NodeHeader
  pub contents : List ℕ

-- INT, FLOAT, STRING and BOOL of schema.h.
abbrev pub int_type : ℕ
int_type = 0

abbrev pub float_type : ℕ
float_type = 1

abbrev pub string_type : ℕ
string_type = 2

abbrev pub bool_type : ℕ
bool_type = 3

abbrev pub meta_size : ℕ
meta_size = 48

abbrev pub attr_head_size : ℕ
attr_head_size = 8

abbrev pub node_head_size : ℕ
node_head_size = 16
