-- ===== src/Ends/Nodes.antt =====
-- The functions of storageBaseApi.c that `addNode` calls, and `addNode`.
use llp_base.Common.{ℕ, zero, suc, ◌+◌, ◌%◌, List, [], ◌∷◌, ◌==◌, u64, ltb, length}
use llp_base.Schema.{TreeSchema, KeyNode, string_type, next_node}
use llp_base.Schema.Sizes.{id_array_size}
use llp_base.BaseApi.{
  get_types, get_id_offset, set_root, link_string, link_strings, link_ston, relink_parent,
  swap_string_node, swap_tree_node, swap_node, insert_node, grow_id_array, append_to_id_array,
  insert_chain, insert_node_str,
}
use llp_base.Inner.{FieldValue, as_word, as_chars, word, chars, store_value, store_values, add_node}
use llp_base.Ends.{Ends, returned, faulted, then-IsOver, if-IsOver, option-IsOver, defined-IsOver}
use llp_base.Ends.Files.{
  seek_set-Ends, seek_end-Ends, ftruncate-Ends, read_file-Ends, write_file-Ends,
  read_tree_schema-Ends, read_node-Ends, write_tree_schema-Ends, write_node-Ends,
}

get_types-Ends : Ends get_types
unfolding get_types
get_types-Ends w =
    then-IsOver (seek_set-Ends 0 w)
      (λ _ w. then-IsOver (read_tree_schema-Ends w) (λ p w. returned _ _))

get_id_offset-Ends : (offset : ℕ) → Ends (get_id_offset offset)
unfolding get_id_offset
get_id_offset-Ends offset w = then-IsOver (read_tree_schema-Ends w) (λ p w.
    then-IsOver (seek_set-Ends _ w) (λ _ w.
      then-IsOver (read_node-Ends _ w)
        (λ q w. then-IsOver (defined-IsOver _ w) (λ slot w. returned _ _))))

set_root-Ends : (s : TreeSchema) (id offset : ℕ) → Ends (set_root s id offset)
unfolding set_root
set_root-Ends s id offset w = if-IsOver (ltb id (length s.root)) _ _ w (returned _ _) faulted

link_strings-Ends :
    (node : KeyNode) (offset size : ℕ) (types : List ℕ) (i : ℕ)
    → Ends (link_strings node offset size types i)
unfolding link_strings link_string
link_strings-Ends node offset size [] i w = returned _ _
link_strings-Ends node offset size (type ∷ types) i w =
    then-IsOver
      (if-IsOver (type == string_type) _ _ w
        (then-IsOver (defined-IsOver _ w) (λ p w. then-IsOver (seek_set-Ends _ w) (λ _ w.
          then-IsOver (read_node-Ends _ w) (λ q w.
            then-IsOver (seek_set-Ends _ w)
              (λ _ w. then-IsOver (write_node-Ends _ _ w) (λ _ w. returned _ _))))))
        (returned _ _))
      (λ _ w. link_strings-Ends node offset size types (i + 1) w)

link_ston-Ends : (node : KeyNode) (offset : ℕ) → Ends (link_ston node offset)
unfolding link_ston
link_ston-Ends node offset w =
    then-IsOver (get_types-Ends w) (λ p w. link_strings-Ends node offset p.1 p.0 0 w)

relink_parent-Ends :
    (parent : KeyNode) (dest src : ℕ) (types : List ℕ) (i : ℕ)
    → Ends (relink_parent parent dest src types i)
unfolding relink_parent
relink_parent-Ends parent dest src [] i w = returned _ _
relink_parent-Ends parent dest src (type ∷ types) i w =
    let rest = relink_parent-Ends parent dest src types (i + 1) in
    if-IsOver (type == string_type) _ _ w
      (then-IsOver (defined-IsOver _ w)
        (λ link w. if-IsOver (link == src) _ _ w (returned _ _) (rest w)))
      (rest w)

swap_string_node-Ends :
    (dest src : ℕ) (types : List ℕ) (size : ℕ) → Ends (swap_string_node dest src types size)
unfolding swap_string_node
swap_string_node-Ends dest src types size w = then-IsOver (seek_set-Ends _ w) (λ _ w.
    then-IsOver (read_node-Ends _ w) (λ p w.
      then-IsOver
        (if-IsOver (next_node p.1.header == 0) _ _ w (returned _ _) (
          then-IsOver (seek_set-Ends _ w) (λ _ w. then-IsOver (read_file-Ends _ w) (λ got w.
            then-IsOver (seek_set-Ends _ w)
              (λ _ w. then-IsOver (write_file-Ends _ _ w) (λ _ w. returned _ _))))))
        (λ head w. then-IsOver (seek_set-Ends _ w) (λ _ w.
          then-IsOver (read_file-Ends _ w) (λ got w. then-IsOver (defined-IsOver _ w) (λ next w.
            if-IsOver (next == src) _ _ w
              (then-IsOver (seek_set-Ends _ w)
                (λ _ w. then-IsOver (write_file-Ends _ _ w) (λ _ w. returned _ _)))
              (then-IsOver (seek_set-Ends _ w) (λ _ w. then-IsOver (read_node-Ends _ w) (λ q w.
                then-IsOver (relink_parent-Ends q.1 dest src types 0 w) (λ parent w.
                  then-IsOver (seek_set-Ends _ w)
                    (λ _ w. then-IsOver (write_node-Ends _ _ w) (λ _ w. returned _ _))))))))))))

swap_tree_node-Ends :
    (dest src : ℕ) (schema : TreeSchema) (size id : ℕ)
    → Ends (swap_tree_node dest src schema size id)
unfolding swap_tree_node
swap_tree_node-Ends dest src schema size id w = then-IsOver (seek_set-Ends _ w) (λ _ w.
    then-IsOver (read_node-Ends _ w) (λ p w. then-IsOver (link_ston-Ends _ _ w) (λ _ w.
      then-IsOver (set_root-Ends _ _ _ w)
        (λ s w. then-IsOver (write_tree_schema-Ends _ w) (λ _ w. returned _ _)))))

swap_node-Ends : (dest src node_size : ℕ) → Ends (swap_node dest src node_size)
unfolding swap_node
swap_node-Ends dest src node_size w = then-IsOver (get_types-Ends w) (λ p w.
    if-IsOver (src == dest) _ _ w (returned _ _) (
      then-IsOver (seek_set-Ends _ w) (λ _ w. then-IsOver (read_file-Ends _ w) (λ q w.
        then-IsOver (seek_set-Ends _ w) (λ _ w. then-IsOver (write_file-Ends _ _ w) (λ _ w.
          then-IsOver (seek_set-Ends _ w) (λ _ w. then-IsOver (read_tree_schema-Ends w) (λ s w.
            then-IsOver (get_id_offset-Ends _ w) (λ found w.
              option-IsOver found _ _ w (swap_string_node-Ends dest src p.0 p.1 w)
                (λ id. swap_tree_node-Ends _ _ _ _ _ w))))))))))

insert_node-Ends : (node : KeyNode) (size : ℕ) → Ends (insert_node node size)
unfolding insert_node
insert_node-Ends node size w = then-IsOver (seek_end-Ends _ w) (λ _ w.
    then-IsOver (ftruncate-Ends _ w)
      (λ _ w. then-IsOver (write_node-Ends _ _ w) (λ _ w. returned _ _)))

append_to_id_array-Ends : (offset : ℕ) → Ends (append_to_id_array offset)
unfolding append_to_id_array grow_id_array
append_to_id_array-Ends offset w = then-IsOver (read_tree_schema-Ends w) (λ p w.
    then-IsOver
      (if-IsOver
        (u64 (p.1.meta.cur_id + 1) % id_array_size p.1.meta.template_size p.1.meta.cur_id == 0) _ _
        w
        (then-IsOver (seek_end-Ends _ w) (λ _ w. then-IsOver (ftruncate-Ends _ w) (λ _ w.
          then-IsOver (swap_node-Ends _ _ _ w)
            (λ _ w. then-IsOver (read_tree_schema-Ends w) (λ q w. returned _ _)))))
        (returned _ _))
      (λ s w. then-IsOver (set_root-Ends _ _ _ w) (λ s w.
        then-IsOver (seek_set-Ends _ w)
          (λ _ w. then-IsOver (write_tree_schema-Ends _ w) (λ _ w. returned _ _)))))

insert_chain-Ends :
    (left : ℕ) (string : List ℕ) (node_size pos count i : ℕ)
    → Ends (insert_chain left string node_size pos count i)
unfolding insert_chain
insert_chain-Ends zero string node_size pos count i w = returned _ _
insert_chain-Ends (suc left) string node_size pos count i w =
    then-IsOver (insert_node-Ends _ _ w)
      (λ _ w. insert_chain-Ends left string node_size pos count (i + 1) w)

insert_node_str-Ends : (string : List ℕ) (node_size : ℕ) → Ends (insert_node_str string node_size)
unfolding insert_node_str
insert_node_str-Ends string node_size w = then-IsOver (defined-IsOver _ w) (λ len w.
    then-IsOver (seek_end-Ends _ w)
      (λ _ v. then-IsOver (insert_chain-Ends _ _ _ _ _ _ v) (λ _ w. returned _ _)))

as_word-Ends : (v : FieldValue) → Ends (as_word v)
as_word-Ends (word n) w = returned _ _
as_word-Ends (chars cs) w = faulted

as_chars-Ends : (v : FieldValue) → Ends (as_chars v)
as_chars-Ends (word n) w = faulted
as_chars-Ends (chars cs) w = returned _ _

store_values-Ends :
    (size : ℕ) (types : List ℕ) (values : List FieldValue) (i : ℕ) (contents : List ℕ)
    → Ends (store_values size types values i contents)
unfolding store_values store_value
store_values-Ends size [] values i contents w = returned _ _
store_values-Ends size (type ∷ types) values i contents w =
    then-IsOver (defined-IsOver _ w) (λ value w.
      then-IsOver
        (if-IsOver (type == string_type) _ _ w
          (then-IsOver (as_chars-Ends value w) (λ cs w. insert_node_str-Ends _ _ w))
          (as_word-Ends value w))
        (λ link w. store_values-Ends size types values (i + 1) _ w))

-- `addNode` has no loop of its own that a file could keep going.
pub add_node-Ends :
    (fresh : List ℕ) (values : List FieldValue) (parent : ℕ) → Ends (add_node fresh values parent)
unfolding add_node
add_node-Ends fresh values parent w = then-IsOver (get_types-Ends w) (λ p w.
    then-IsOver (read_tree_schema-Ends w) (λ s w.
      then-IsOver (store_values-Ends p.1 p.0 values 0 fresh w) (λ contents w.
        then-IsOver (insert_node-Ends _ _ w) (λ r w.
          then-IsOver (link_ston-Ends _ _ w)
            (λ _ w. then-IsOver (append_to_id_array-Ends _ w) (λ _ w. returned _ _))))))
