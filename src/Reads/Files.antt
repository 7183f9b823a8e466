-- ===== src/Reads/Files.antt =====
-- The reading half of dataFile.c.
use llp_base.Common.{
  ℕ, ◌+◌, words_from_le, zero, suc, List, [], ◌∷◌, ltb, ◌^◌, length, Bool-cases, inl, inr, refl,
  ◌==◌, drop, ◌++◌,
}
use llp_base.OsFile.{Io, pure, ◌>>=◌, ◌>>◌, ReadStatus, seek_set, read_file, fread}
use llp_base.Schema.{attr_head_size, NodeHeader, next_node, node_head_size}
use llp_base.DataFile.{
  read_attribute, read_attributes, meta_of_words, read_tree_meta, read_tree_schema, header_of_words,
  read_node, chain_length, string_length, read_chain, read_string_from_node,
}
use llp_base.Reads.{Reads, kept, faulted, starved, pure-Reads, then-Keeps, if-Keeps, defined-Reads}

pub seek_set-Reads : (offset : ℕ) → Reads (seek_set offset)
unfolding seek_set
seek_set-Reads offset w = elim (Bool-cases (ltb offset (2 ^ 63))) [
  | inl e ↦ rw e (kept _ _ refl)
  | inr e ↦ rw e (kept _ _ refl)
]

pub read_file-Reads : (size : ℕ) → Reads (read_file size)
unfolding read_file fread
read_file-Reads size w = kept _ _ refl

read_attribute-Reads : Reads read_attribute
unfolding read_attribute
read_attribute-Reads w = then-Keeps (read_file-Reads _ w) (λ p w.
    if-Keeps (ltb (length p.1) attr_head_size) _ _ w faulted (
      then-Keeps (read_file-Reads _ w)
        (λ q v. if-Keeps (ltb _ (length q.1)) _ _ v faulted (pure-Reads _ v))))

read_attributes-Reads : (n : ℕ) (ret : ReadStatus) → Reads (read_attributes n ret)
unfolding read_attributes
read_attributes-Reads zero ret w = pure-Reads _ w
read_attributes-Reads (suc n) ret w =
    then-Keeps (read_attribute-Reads w)
      (λ p w. then-Keeps (read_attributes-Reads n _ w) (λ q w. (pure-Reads _ w)))

meta_of_words-Reads : (ws : List ℕ) → Reads (meta_of_words ws)
unfolding meta_of_words
meta_of_words-Reads (a ∷ b ∷ c ∷ d ∷ e ∷ f ∷ ws) w = pure-Reads _ w
meta_of_words-Reads [] w = faulted
meta_of_words-Reads (a ∷ []) w = faulted
meta_of_words-Reads (a ∷ b ∷ []) w = faulted
meta_of_words-Reads (a ∷ b ∷ c ∷ []) w = faulted
meta_of_words-Reads (a ∷ b ∷ c ∷ d ∷ []) w = faulted
meta_of_words-Reads (a ∷ b ∷ c ∷ d ∷ e ∷ []) w = faulted

pub read_tree_schema-Reads : Reads read_tree_schema
unfolding read_tree_schema read_tree_meta
read_tree_schema-Reads w = then-Keeps (seek_set-Reads 0 w) (λ _ w.
    then-Keeps
      (then-Keeps (read_file-Reads _ w)
        (λ p w. then-Keeps (meta_of_words-Reads _ w) (λ m w. (pure-Reads _ w))))
      (λ p w.
        then-Keeps (read_attributes-Reads _ _ w)
          (λ q w. then-Keeps (read_file-Reads _ w) (λ r w. (pure-Reads _ w)))))

header_of_words-Reads : (ws : List ℕ) → Reads (header_of_words ws)
unfolding header_of_words
header_of_words-Reads (a ∷ b ∷ ws) w = pure-Reads _ w
header_of_words-Reads (a ∷ []) w = faulted
header_of_words-Reads [] w = faulted

pub read_node-Reads : (size : ℕ) → Reads (read_node size)
unfolding read_node
read_node-Reads size w = then-Keeps (read_file-Reads _ w) (λ p w.
    then-Keeps (header_of_words-Reads _ w)
      (λ h w. then-Keeps (read_file-Reads _ w) (λ q w. (pure-Reads _ w))))

-- The loop of `getStringLenght` goes on.
abbrev next_length : ℕ → List ℕ → ℕ → NodeHeader → Io ℕ
next_length fuel buffer n h = do
  seek_set (next_node h)
  (_, got) ← read_file node_head_size
  chain_length fuel (got ++ drop (length got) buffer) (n + 1)

chain_length-Reads : (fuel : ℕ) (buffer : List ℕ) (n : ℕ) → Reads (chain_length fuel buffer n)
unfolding chain_length
chain_length-Reads zero buffer n w = starved
chain_length-Reads (suc fuel) buffer n w =
    then-Keeps (header_of_words-Reads (words_from_le buffer) w) (λ h w.
      if-Keeps (next_node h == 0) (pure n) (next_length fuel buffer n h) w (pure-Reads n w) (
        then-Keeps (seek_set-Reads (next_node h) w) (λ _ w.
          then-Keeps (read_file-Reads node_head_size w)
            (λ p w. chain_length-Reads fuel (p.1 ++ drop (length p.1) buffer) (n + 1) w))))

read_chain-Reads : (n size offset : ℕ) → Reads (read_chain n size offset)
unfolding read_chain
read_chain-Reads zero size offset w = pure-Reads _ w
read_chain-Reads (suc n) size offset w = then-Keeps (seek_set-Reads _ w) (λ _ w.
    then-Keeps (read_node-Reads _ w) (λ p w.
      then-Keeps (defined-Reads _ w)
        (λ cs w. then-Keeps (read_chain-Reads n size _ w) (λ rest w. pure-Reads _ w))))

pub read_string_from_node-Reads :
    (fuel size offset : ℕ) → Reads (read_string_from_node fuel size offset)
unfolding read_string_from_node string_length
read_string_from_node-Reads fuel size offset w =
    then-Keeps
      (then-Keeps (seek_set-Reads _ w)
        (λ _ w. then-Keeps (read_file-Reads _ w) (λ p w. chain_length-Reads fuel _ 1 w)))
      (λ n w. read_chain-Reads n size offset w)
