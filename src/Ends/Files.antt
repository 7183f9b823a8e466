-- ===== src/Ends/Files.antt =====
-- dataFile.c.
use llp_base.Common.{ℕ, zero, suc, List, [], ◌∷◌, ltb, ◌^◌, length, Bool-cases, inl, inr}
use llp_base.OsFile.{
  ReadStatus, WriteStatus, seek_set, seek_end, ftruncate, read_file, write_file, fwrite,
}
use llp_base.Schema.{attr_head_size, AttributeInfo, TreeSchema, KeyNode}
use llp_base.DataFile.{
  read_attribute, read_attributes, meta_of_words, read_tree_meta, read_tree_schema, header_of_words,
  read_node, write_tree_meta, write_attributes, write_attributes_template, write_root,
  write_tree_schema, write_node,
}
use llp_base.Ends.{Ends, returned, faulted, then-IsOver, if-IsOver}

pub seek_set-Ends : (offset : ℕ) → Ends (seek_set offset)
unfolding seek_set
seek_set-Ends offset w = elim (Bool-cases (ltb offset (2 ^ 63))) [
  | inl e ↦ rw e (returned _ _)
  | inr e ↦ rw e (returned _ _)
]

pub seek_end-Ends : (offset : ℕ) → Ends (seek_end offset)
unfolding seek_end
seek_end-Ends offset w = returned _ _

pub ftruncate-Ends : (size : ℕ) → Ends (ftruncate size)
unfolding ftruncate
ftruncate-Ends size w = returned _ _

pub read_file-Ends : (size : ℕ) → Ends (read_file size)
unfolding read_file
read_file-Ends size w = returned _ _

pub write_file-Ends : (buffer : List ℕ) (size : ℕ) → Ends (write_file buffer size)
unfolding write_file fwrite
write_file-Ends buffer size w = elim (Bool-cases (ltb (length buffer) size)) [
  | inl e ↦ rw e faulted
  | inr e ↦ rw e (returned _ _)
]

read_attribute-Ends : Ends read_attribute
unfolding read_attribute
read_attribute-Ends w = then-IsOver (read_file-Ends _ w) (λ p w.
    if-IsOver (ltb (length p.1) attr_head_size) _ _ w faulted (
      then-IsOver (read_file-Ends _ w)
        (λ q v. if-IsOver (ltb _ (length q.1)) _ _ v faulted (returned _ _))))

read_attributes-Ends : (n : ℕ) (ret : ReadStatus) → Ends (read_attributes n ret)
unfolding read_attributes
read_attributes-Ends zero ret w = returned _ _
read_attributes-Ends (suc n) ret w =
    then-IsOver (read_attribute-Ends w)
      (λ p w. then-IsOver (read_attributes-Ends n _ w) (λ q w. (returned _ _)))

meta_of_words-Ends : (ws : List ℕ) → Ends (meta_of_words ws)
unfolding meta_of_words
meta_of_words-Ends (a ∷ b ∷ c ∷ d ∷ e ∷ f ∷ ws) w = returned _ _
meta_of_words-Ends [] w = faulted
meta_of_words-Ends (a ∷ []) w = faulted
meta_of_words-Ends (a ∷ b ∷ []) w = faulted
meta_of_words-Ends (a ∷ b ∷ c ∷ []) w = faulted
meta_of_words-Ends (a ∷ b ∷ c ∷ d ∷ []) w = faulted
meta_of_words-Ends (a ∷ b ∷ c ∷ d ∷ e ∷ []) w = faulted

pub read_tree_schema-Ends : Ends read_tree_schema
unfolding read_tree_schema read_tree_meta
read_tree_schema-Ends w = then-IsOver (seek_set-Ends 0 w) (λ _ w.
    then-IsOver
      (then-IsOver (read_file-Ends _ w)
        (λ p w. then-IsOver (meta_of_words-Ends _ w) (λ m w. (returned _ _))))
      (λ p w.
        then-IsOver (read_attributes-Ends _ _ w)
          (λ q w. then-IsOver (read_file-Ends _ w) (λ r w. (returned _ _)))))

header_of_words-Ends : (ws : List ℕ) → Ends (header_of_words ws)
unfolding header_of_words
header_of_words-Ends (a ∷ b ∷ ws) w = returned _ _
header_of_words-Ends (a ∷ []) w = faulted
header_of_words-Ends [] w = faulted

pub read_node-Ends : (size : ℕ) → Ends (read_node size)
unfolding read_node
read_node-Ends size w = then-IsOver (read_file-Ends _ w) (λ p w.
    then-IsOver (header_of_words-Ends _ w)
      (λ h w. then-IsOver (read_file-Ends _ w) (λ q w. (returned _ _))))

write_attributes-Ends :
    (n : ℕ) (attrs : List AttributeInfo) (ret : WriteStatus) → Ends (write_attributes n attrs ret)
unfolding write_attributes
write_attributes-Ends zero attrs ret w = returned _ _
write_attributes-Ends (suc n) [] ret w = faulted
write_attributes-Ends (suc n) (a ∷ attrs) ret w =
    then-IsOver (write_file-Ends _ _ w)
      (λ p w. then-IsOver (write_file-Ends _ _ w) (λ q w. write_attributes-Ends n attrs _ w))

pub write_tree_schema-Ends : (s : TreeSchema) → Ends (write_tree_schema s)
unfolding write_tree_schema write_tree_meta write_attributes_template write_root
write_tree_schema-Ends s w = then-IsOver (seek_set-Ends 0 w) (λ _ w.
    then-IsOver (write_file-Ends _ _ w) (λ p w. then-IsOver (seek_set-Ends _ w) (λ _ w.
      then-IsOver (write_attributes-Ends _ _ _ w)
        (λ q w. then-IsOver (write_file-Ends _ _ w) (λ r w. (returned _ _))))))

pub write_node-Ends : (node : KeyNode) (size : ℕ) → Ends (write_node node size)
unfolding write_node
write_node-Ends node size w =
    then-IsOver (write_file-Ends _ _ w)
      (λ p w. then-IsOver (write_file-Ends _ _ w) (λ q w. (returned _ _)))
