-- ===== src/Store/Strings/Steps.antt =====
-- The rounds of `getStringLenght` and `readStringFromNode`.
use llp_base.Common.{
  ℕ, zero, suc, ◌+◌, ◌-◌, ◌^◌, ◌<◌, ◌≤◌, ◌≡◌, refl, ap, ◌∙◌, some, false, true, Bool, List, [], ◌∷◌,
  ◌++◌, length, take, drop, arith, append-nil, words_from_le, words_from_le-words_to_le, lt→ltb,
  ne→==-false, if◌then◌else◌,
}
use llp_base.OsFile.{World, Run, ok, ReadStatus, read_success, read_file, seek_set}
use llp_base.OsFile.Laws.{read_file-ok}
use llp_base.Schema.{NodeHeader, next_node}
use llp_base.Schema.Sizes.{real_node_size}
use llp_base.DataFile.{
  node_head_bytes, header_of_words, chain_length, read_chain, read_node, strncpy,
}
use llp_base.Store.Insert.{length-node_head_bytes}

pub header_of_words-node_head_bytes :
    (h : NodeHeader) (w : World)
    → h.parent < 2 ^ 64
    → h.alloc < 2 ^ 64
    → header_of_words (words_from_le (node_head_bytes h)) w ≡ ok h w
unfolding header_of_words node_head_bytes
header_of_words-node_head_bytes h w p a =
    rw (words_from_le-words_to_le (h.parent ∷ h.alloc ∷ []) (p, (a, tt))) refl

pub take-longer :
    (n m : ℕ) (xs ys : List ℕ) → length xs ≡ n → n ≤ m → take m (xs ++ ys) ≡ xs ++ take (m - n) ys
take-longer n m [] ys e h = ap (λ k. take k ys) (omega arith)
take-longer n zero (x ∷ xs) ys e h = absurd (omega arith)
take-longer n (suc m) (x ∷ xs) ys e h =
    ap (λ t. x ∷ t)
      (take-longer (length xs) m xs ys refl (omega arith) ∙ ap (λ k. xs ++ take k ys) (omega arith))

drop_end : (n : ℕ) (xs : List ℕ) → length xs ≤ n → drop n xs ≡ []
drop_end zero [] h = refl
drop_end zero (x ∷ xs) h = absurd (omega arith)
drop_end (suc n) [] h = refl
drop_end (suc n) (x ∷ xs) h = drop_end n xs (omega arith)

pub seek_set-ok : (n : ℕ) (w : World) → n < 2 ^ 63 → seek_set n w ≡ ok tt (record w { pos = n })
unfolding seek_set
seek_set-ok n w h = rw (lt→ltb n (2 ^ 63) h) refl

pub read_file-head :
    (h : NodeHeader) (w : World) (rest : List ℕ)
    → drop w.pos w.bytes ≡ node_head_bytes h ++ rest
    → read_file 16 w ≡ ok (read_success, node_head_bytes h) (record w { pos = w.pos + 16 })
read_file-head h w rest here =
    rw (← length-node_head_bytes h)
      (read_file-ok w (node_head_bytes h) rest here (omega (arith, length-node_head_bytes h)))

-- A round of `getStringLenght` that goes on.
pub chain_step :
    (buffer got : List ℕ) (h : NodeHeader) (fuel n : ℕ) (w w' : World) (o : ℕ) (result : Run ℕ)
    → header_of_words (words_from_le buffer) w ≡ ok h w
    → next_node h ≡ o
    → 0 < o
    → o < 2 ^ 63
    → length buffer ≡ length got
    → read_file 16 (record w { pos = o }) ≡ ok (read_success, got) w'
    → chain_length fuel got (n + 1) w' ≡ result
    → chain_length (suc fuel) buffer n w ≡ result
unfolding chain_length
chain_step buffer got h fuel n w w' o result head next p small same read rest =
    rw (head, next, ne→==-false o 0 (λ z. omega (arith, z)), seek_set-ok o w small, read)
      (rw (drop_end (length got) buffer (omega arith), append-nil got) rest)

-- A round of `readStringFromNode`.
pub read_step :
    (n size o : ℕ) (h : NodeHeader) (contents : List ℕ) (st : ReadStatus) (w w1 w2 : World)
    (piece rest : List ℕ)
    → o < 2 ^ 63
    → read_node size (record w { pos = o }) ≡ ok (st, record { header = h; contents = contents }) w1
    → strncpy (real_node_size size) contents ≡ some piece
    → read_chain n size (next_node h) w1 ≡ ok rest w2
    → read_chain (suc n) size o w ≡ ok (piece ++ rest) w2
unfolding read_chain
read_step n size o h contents st w w1 w2 piece rest small node copy further =
    rw (seek_set-ok o w small, node, copy) (rw further refl)

pub if-lt : (b : Bool) (x y : ℕ) → x < 2 ^ 64 → y < 2 ^ 64 → (if b then x else y) < 2 ^ 64
if-lt true x y h k = h
if-lt false x y h k = k
