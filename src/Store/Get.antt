-- ===== src/Store/Get.antt =====
-- `getNode` on a stored tree without string attributes.
use llp_base.Common.{
  ℕ, zero, suc, ◌+◌, ◌-◌, ◌*◌, ◌^◌, ◌<◌, ◌≤◌, ◌≡◌, refl, sym, ap, ◌∙◌, some, List, [], ◌∷◌, ◌++◌,
  map, length, take, drop, get_elem?, append_assoc, length-append, arith, lt→ltb, ne→==-false,
  words_to_le, words_from_le, words_from_le-to_le, words_from_le-words_to_le, AreWords,
  length-words_to_le, to_le, length-map,
}
use llp_base.OsFile.{World, Run, ok, ReadStatus, read_success, read_file, seek_set}
use llp_base.OsFile.Laws.{read_file-ok}
use llp_base.Schema.{NodeHeader, KeyNode, TreeSchema}
use llp_base.Schema.Sizes.{real_node_size}
use llp_base.DataFile.{node_head_bytes, read_node, header_of_words}
use llp_base.DataFile.Reading.{moved, left}
use llp_base.BaseApi.{attribute_type}
use llp_base.Inner.{word, get_node, load_values, load_value}
use llp_base.Store.Slots.{IsStore, NodeAt, NoStrings, types_of}
use llp_base.Store.Lookup.{behind_schema, get_types-IsStore, conv_i_to_o-IsStore}

-- A call that returns `a` and changes nothing but the stream's position.
abbrev pub Reads : {A : Type 0} → Run A → A → World → Type 0
Reads r a w = (p : ℕ) × (r ≡ ok a (record w { pos = p }))

-- How many bytes of data `readNode` asks for.
abbrev pub data_read : ℕ → ℕ
data_read t = real_node_size (real_node_size t)

-- The whole words at the front of some words and other bytes.
words_front :
    (ws more : List ℕ)
    → AreWords ws
    → words_from_le (words_to_le ws ++ more) ≡ ws ++ words_from_le more
unfolding words_to_le
words_front [] more h = refl
words_front (w ∷ ws) more h =
    ap words_from_le (append_assoc (to_le 8 w) (words_to_le ws) more)
    ∙ words_from_le-to_le w (words_to_le ws ++ more) h.0
    ∙ ap (λ t. w ∷ t) (words_front ws more h.1)

pub take_front :
    (n : ℕ) (xs ys : List ℕ) → length xs ≤ n → take n (xs ++ ys) ≡ xs ++ take (n - length xs) ys
take_front n [] ys h = ap (λ k. take k ys) (omega arith)
take_front zero (x ∷ xs) ys h = absurd (omega arith)
take_front (suc n) (x ∷ xs) ys h =
    ap (λ t. x ∷ t)
      (take_front n xs ys (omega arith)
        ∙ ap (λ k. xs ++ take k ys) {y = suc n - suc (length xs)} (omega arith))

get_front : (xs ys : List ℕ) (i : ℕ) → i < length xs → get_elem? (xs ++ ys) i ≡ get_elem? xs i
get_front [] ys i h = absurd (omega arith)
get_front (x ∷ xs) ys zero h = refl
get_front (x ∷ xs) ys (suc i) h = get_front xs ys i (omega arith)

read_data :
    (n : ℕ) (w : World)
    → (st : ReadStatus) × (p : ℕ) × (read_file n w
        ≡ ok (st, take n (drop w.pos w.bytes)) (record w { pos = p }))
unfolding read_file
read_data n w = (_, _, refl)

-- `readNode` where a header stands: it returns the header, and the data that the file still has.
pub read_node-header :
    (t : ℕ) (w : World) (h : NodeHeader) (rest : List ℕ)
    → h.parent < 2 ^ 64
    → h.alloc < 2 ^ 64
    → drop w.pos w.bytes ≡ node_head_bytes h ++ rest
    → (st : ReadStatus) × Reads
        (read_node t w)
        (st, record { header = h; contents = take (data_read t) rest })
        w
unfolding read_node header_of_words node_head_bytes
read_node-header t w h rest p a here =
    let ws : List ℕ = h.parent ∷ h.alloc ∷ [] in
    let head : read_file 16 w ≡ ok (read_success, words_to_le ws) (moved w 16) =
      rw (← length-words_to_le ws)
        (read_file-ok w (words_to_le ws) rest here (omega (arith, length-words_to_le ws))) in
    let behind : drop (w.pos + 16) w.bytes ≡ rest =
      ap (λ n. drop (w.pos + n) w.bytes) (sym (length-words_to_le ws))
      ∙ left w (words_to_le ws) rest here in
    let (st, q, body) = read_data (data_read t) (moved w 16) in
    (st, (q, rw (head, words_from_le-words_to_le ws (p, (a, tt)), body, behind)))

get_middle :
    (pre : List ℕ) (u : ℕ) (post : List ℕ) → get_elem? (pre ++ u ∷ post) (length pre) ≡ some u
get_middle [] u post = refl
get_middle (p ∷ pre) u post = get_middle pre u post

load_words :
    (fuel size : ℕ) (node : KeyNode) (types us pre post : List ℕ) (w : World)
    → NoStrings types
    → length us ≡ length types
    → words_from_le node.contents ≡ pre ++ (us ++ post)
    → load_values fuel size node types (length pre) w ≡ ok (map word us) w
unfolding load_values load_value
load_words fuel size node [] [] pre post w ns e h = refl
load_words fuel size node [] (u ∷ us) pre post w ns e h = absurd (omega arith)
load_words fuel size node (type ∷ types) [] pre post w ns e h = absurd (omega arith)
load_words fuel size node (type ∷ types) (u ∷ us) pre post w ns e h =
    let next : load_values fuel size node types (length pre + 1) w ≡ ok (map word us) w =
      ap (λ n. load_values fuel size node types n w) (sym (length-append {0} pre (u ∷ [])))
      ∙ load_words fuel size node types us (pre ++ u ∷ []) post w ns.1 (omega arith)
          (h ∙ sym (append_assoc pre (u ∷ []) (us ++ post))) in
    rw (h, get_middle pre u (us ++ post), ns.0, next)

real_node_size-ge : (t : ℕ) → t ≤ 2 ^ 20 → 8 * t ≤ data_read t
unfolding real_node_size
real_node_size-ge t h = ground arith

-- The words that `readNode` hands on, where values stand behind the header.
pub contents_words :
    (t : ℕ) (values more : List ℕ)
    → t ≤ 2 ^ 20
    → length values ≡ t
    → AreWords values
    → words_from_le (take (data_read t) (words_to_le values ++ more))
      ≡ values ++ words_from_le (take (data_read t - length (words_to_le values)) more)
contents_words t values more small count ws =
    ap words_from_le (
      take_front (data_read t) (words_to_le values) more
        (omega (arith, length-words_to_le values, count, real_node_size-ge t small)))
    ∙ words_front values (take (data_read t - length (words_to_le values)) more) ws

-- As many values as attributes.
pub count_of_types :
    {usable : ℕ → ℕ} {bytes area : List ℕ} {s : TreeSchema} (values : List ℕ)
    → IsStore usable bytes s area
    → length values ≡ length (types_of s)
    → length values ≡ s.meta.template_size
count_of_types {s} values i full =
    full ∙ length-map attribute_type s.nodes_template ∙ sym i.schema.count

module _ {s : TreeSchema} {area : List ℕ} (w : World) (i : IsStore w.usable w.bytes s area)
    (ns : NoStrings (types_of s)) where
  -- `getNode` returns the values of the node that stands at the offset of the id.
  pub get_node-IsStore :
      (fuel id offset : ℕ) (h : NodeHeader) (values : List ℕ)
      → length values ≡ length (types_of s)
      → get_elem? s.root id ≡ some offset
      → 0 < offset
      → offset < 2 ^ 63
      → NodeAt w.bytes offset h values
      → Reads (get_node fuel id w) (some (map word values)) w
  unfolding get_node seek_set
  get_node-IsStore fuel id offset h values full slot pos small n =
      let t : ℕ = s.meta.template_size in
      let w1 : World = behind_schema w s in
      let w2 : World = record w { pos = offset } in
      let (st, r) =
        read_node-header t w2 h (words_to_le values ++ n.more) n.parent_word n.alloc_word n.here in
      let node : KeyNode = record {
        header = h;
        contents = take (data_read t) (words_to_le values ++ n.more);
      } in
      let loaded =
        load_words fuel t node (types_of s) values []
          (words_from_le (take (data_read t - length (words_to_le values)) n.more))
          (record w { pos = r.0 }) ns full
          (contents_words t values n.more i.schema.meta.sizes.attrs (count_of_types values i full)
            n.values_words) in
      (
        r.0,
        rw (
          conv_i_to_o-IsStore w i id offset slot,
          ne→==-false offset 0 (λ e. omega (arith, e)),
          get_types-IsStore w1 i,
          lt→ltb offset (2 ^ 63) small,
          r.1,
          loaded,
        ),
      )
