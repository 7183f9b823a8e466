-- ===== src/Store/Strings/Unterminated.antt =====
-- A string that fills its nodes' places is read without an end.
use native.Mathlib.Nat.{div-add-mod, add-zero}
use llp_base.Common.{
  ℕ, zero, suc, ◌+◌, ◌-◌, ◌*◌, ◌/◌, ◌%◌, ◌^◌, ◌<◌, ◌≤◌, ◌≡◌, ◌⊎◌, refl, ap, ◌∙◌, none, List, [],
  ◌∷◌, ◌++◌, length, replicate, arith, append-nil, ==-refl,
}
use llp_base.OsFile.{World, ok}
use llp_base.Schema.Sizes.{real_node_size}
use llp_base.DataFile.{read_string_from_node}
use llp_base.BaseApi.{insert_node_str}
use llp_base.Inner.{str_equal}
use llp_base.Text.{text_of}
use llp_base.Store.Strings.Copied.{IsText}
use llp_base.Store.Strings.RoundTrip.{places, read_string_from_node-insert_node_str}

text_of-text : (cs : List ℕ) → IsText cs → text_of cs ≡ none
unfolding text_of
text_of-text [] t = refl
text_of-text (zero ∷ cs) (p, t) = absurd (omega arith)
text_of-text (suc c ∷ cs) (p, t) = rw (text_of-text cs t) refl

str_equal-same : (cs behind : List ℕ) → IsText cs → str_equal cs (cs ++ (0 ∷ behind)) ≡ none
unfolding str_equal
str_equal-same [] behind t = refl
str_equal-same (zero ∷ cs) behind (p, t) = absurd (omega arith)
str_equal-same (suc c ∷ cs) behind (p, t) = rw (==-refl c, str_equal-same cs behind t) refl

places-whole : (n r : ℕ) → n % r ≡ 0 → r * places n r - n ≡ 0
places-whole n r e = rw e (omega (arith, div-add-mod n r, e, ap (λ m. r * m) (add-zero (n / r))))

-- A text that fills its nodes' places comes back without a zero byte: where it is put into the file as
-- for the round trip, and is at least one character long, the string that is read has no end, so that
-- printing it reads outside the block, and so does comparing it with the same text.
pub read_string_from_node-unterminated :
    (w : World) (size fuel : ℕ) (cs behind : List ℕ)
    → size ≤ 2 ^ 20
    → IsText cs
    → 0 < length cs
    → length cs % real_node_size size ≡ 0
    → length w.bytes + (real_node_size size + 16) * (places (length cs) (real_node_size size) + 1)
      < 2 ^ 63
    → places (length cs) (real_node_size size) ≤ fuel
    → (w.pos ≡ length w.bytes) ⊎ (places (length cs) (real_node_size size) ≡ 1)
    → (w' : World) × (p : ℕ) × (s : List ℕ) × (insert_node_str
          (cs ++ (0 ∷ behind))
          (real_node_size size)
          w
        ≡ ok (length w.bytes) w')
      × (read_string_from_node fuel size (length w.bytes) w' ≡ ok s (record w' { pos = p }))
      × (text_of s ≡ none)
      × (str_equal s (cs ++ (0 ∷ behind)) ≡ none)
read_string_from_node-unterminated w size fuel cs behind few text filled whole small enough stands =
    let none_left = places-whole (length cs) (real_node_size size) whole in
    let (w', more, p, written, grown, read) =
      read_string_from_node-insert_node_str w size fuel cs behind few text filled (omega arith)
        small enough stands in
    let same : cs
          ++ replicate (real_node_size size * places (length cs) (real_node_size size) - length cs)
              0
        ≡ cs =
      ap (λ n. cs ++ replicate n 0) none_left ∙ append-nil cs in
    (
      w',
      p,
      cs,
      written,
      read ∙ ap (λ (s : List ℕ). ok s (record w' { pos = p })) same,
      text_of-text cs text,
      str_equal-same cs behind text,
    )
