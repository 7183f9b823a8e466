-- ===== src/BaseApi/Strings.antt =====
-- String chains: `insertNodeStr` and `changeStrNode`. A `char*` is the bytes of memory from there on
-- that are set; a read past them is a fault.
use llp_base.Common.{
  ℕ, zero, suc, ◌+◌, ◌-◌, ◌*◌, ◌/◌, ◌%◌, ◌^◌, Option, none, some, List, [], ◌∷◌, drop, ltb, ◌==◌,
  ◌&&◌, not, u64, if◌then◌else◌,
}
use llp_base.OsFile.{Io, pure, no_fuel, ◌>>=◌, ◌>>◌, seek_set, seek_end, tell}
use llp_base.Schema.{NodeHeader, KeyNode, next_node, node_head_size}
use llp_base.DataFile.{read_node, write_node, defined}
use llp_base.BaseApi.Nodes.{insert_node}

-- `strlen`, or `none` when no zero byte ends the string.
unfoldable pub strlen : List ℕ → Option ℕ
strlen [] = none
strlen (zero ∷ cs) = some 0
strlen (suc c ∷ cs) = elim (strlen cs) [ none ↦ none | some n ↦ some (suc n) ]

-- The header of the `i`th of `count` nodes of a chain that is thought to begin at `pos`.
unfoldable pub chain_header : ℕ → ℕ → ℕ → ℕ → NodeHeader
chain_header pos node_size count i = record {
  parent = if i == 0 then 0 else pos + (node_size + node_head_size) * (i - 1);
  alloc = if count - 1 == i then 0 else pos + (node_size + node_head_size) * (i + 1);
}

-- The loop of `insertNodeStr`, with the rounds left.
unfoldable pub insert_chain : ℕ → List ℕ → ℕ → ℕ → ℕ → ℕ → Io (Unit {0})
insert_chain zero string node_size pos count i = pure tt
insert_chain (suc left) string node_size pos count i = do
  insert_node
      (record {
        header = chain_header pos node_size count i;
        contents = drop (node_size * i) string;
      })
      (node_size + node_head_size)
  insert_chain left string node_size pos count (i + 1)

-- The links are counted from where the stream stood at the call; the nodes go to the end of the file.
unfoldable pub insert_node_str : List ℕ → ℕ → Io ℕ
unfolding insert_chain chain_header
insert_node_str string node_size = do
  len ← defined (strlen string)
  let count = len / node_size + (if len % node_size == 0 then 0 else 1)
  pos ← tell
  seek_end 0
  str_pos ← tell
  insert_chain count string node_size pos count 0
  pure str_pos

-- The `do … while` of `changeStrNode`: the node it ends at, that node's offset, the rest of the new
-- string, and the length left, which wraps around below zero.
unfoldable pub change_chain : ℕ → ℕ → List ℕ → ℕ → ℕ → Io (KeyNode × ℕ × List ℕ × ℕ)
change_chain zero offset new_str len size = no_fuel
change_chain (suc fuel) offset new_str len size = do
  seek_set offset
  (_, node) ← read_node size
  seek_set offset
  let cur = record node { contents = new_str }
  write_node cur size
  let left = u64 (len + 2 ^ 64 - size)
  if not (next_node cur.header == 0) && ltb 0 left
      then change_chain fuel (next_node cur.header) (drop size new_str) left size
      else pure (cur, offset, drop size new_str, left)

unfoldable pub change_str_node : ℕ → ℕ → List ℕ → ℕ → Io (Unit {0})
unfolding change_chain
change_str_node fuel offset new_str size = do
  len ← defined (strlen new_str)
  (node, last, rest, left) ← change_chain fuel offset new_str len size
  if left == 0 then pure tt else do
    fpos ← insert_node_str rest size
    seek_set last
    write_node (record node { header = record node.header { alloc = fpos } }) size
    pure tt
