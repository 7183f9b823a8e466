-- ===== src/Tests/Chains.antt =====
-- Strings of two nodes and of a whole place: witnesses.
use llp_base.Common.{ℕ, zero, suc, ◌≡◌, inl, inr, refl, none, List, [], ◌∷◌, ◌++◌, replicate, arith}
use llp_base.OsFile.{World, ok}
use llp_base.Schema.Sizes.{real_node_size}
use llp_base.DataFile.{read_string_from_node}
use llp_base.BaseApi.{insert_node_str}
use llp_base.Inner.{str_equal}
use llp_base.Text.{text_of}
use llp_base.Store.Strings.Copied.{IsText}
use llp_base.Store.Strings.RoundTrip.{read_string_from_node-insert_node_str}
use llp_base.Store.Strings.Unterminated.{read_string_from_node-unterminated}

-- A file of three bytes, with the stream at its end.
abbrev three_bytes : World
three_bytes = record { bytes = 1 ∷ 2 ∷ 3 ∷ []; pos = 3; usable = λ n. n }

letters : (n : ℕ) → IsText (replicate n b'a')
letters zero = tt
letters (suc n) = ((omega arith), letters n)

read_string_from_node-insert_node_str_example :
    (w' : World) × (more : List ℕ) × (p : ℕ) × (insert_node_str
        (replicate 300 b'a' ++ (0 ∷ replicate 300 7))
        256
        three_bytes
      ≡ ok 3 w')
    × (w'.bytes ≡ 1 ∷ 2 ∷ 3 ∷ more)
    × (read_string_from_node 2 1 3 w'
        ≡ ok (replicate 300 b'a' ++ replicate 212 0) (record w' { pos = p }))
unfolding real_node_size
read_string_from_node-insert_node_str_example =
    read_string_from_node-insert_node_str three_bytes 1 2 (replicate 300 b'a') (replicate 300 7)
      (omega arith) (letters 300) (omega arith) (omega arith) (omega arith) (omega arith) (inl refl)

read_string_from_node-unterminated_example :
    (w' : World) × (p : ℕ) × (s : List ℕ) × (insert_node_str
        (replicate 256 b'a' ++ (0 ∷ []))
        256
        three_bytes
      ≡ ok 3 w')
    × (read_string_from_node 1 1 3 w' ≡ ok s (record w' { pos = p }))
    × (text_of s ≡ none)
    × (str_equal s (replicate 256 b'a' ++ (0 ∷ [])) ≡ none)
unfolding real_node_size
read_string_from_node-unterminated_example =
    read_string_from_node-unterminated three_bytes 1 1 (replicate 256 b'a') [] (omega arith)
      (letters 256) (omega arith) refl (omega arith) (omega arith) (inr refl)
