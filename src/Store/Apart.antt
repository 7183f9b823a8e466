-- ===== src/Store/Apart.antt =====
-- A write in one place leaves the node in another as it was.
use llp_base.Common.{
  ℕ, ◌+◌, ◌-◌, ◌≤◌, ◌≡◌, sym, ap, ◌∙◌, List, ◌++◌, length, drop, append_assoc, arith, words_to_le,
}
use llp_base.OsFile.{splice}
use llp_base.OsFile.Laws.{drop-splice_after}
use llp_base.Schema.{NodeHeader}
use llp_base.DataFile.{node_head_bytes}
use llp_base.Store.Slots.{NodeAt}
use llp_base.Store.Overwrite.{splice_inside, drop-splice_before}

module _ {bytes : List ℕ} {offset : ℕ} {head : NodeHeader} {us : List ℕ}
    (at : NodeAt bytes offset head us) (place : ℕ) (written : List ℕ)
    (inside : place + length written ≤ length bytes) where
  abbrev front : List ℕ
  front = node_head_bytes head ++ words_to_le us

  pub NodeAt-before :
      length front ≤ length written
      → offset + length written ≤ place
      → NodeAt (splice place written bytes) offset head us
  NodeAt-before fits le =
      let k : ℕ = place - offset - length front in
      let gap : place - offset ≡ length front + k = omega (arith, le, fits) in
      let there : drop offset bytes ≡ front ++ at.more =
        at.here ∙ sym (append_assoc (node_head_bytes head) (words_to_le us) at.more) in
      record {
        more = splice k written at.more;
        here =
            drop-splice_before offset place written bytes (omega (arith, le))
              (omega (arith, le, inside))
            ∙ ap (λ b. splice (place - offset) written b) there
            ∙ ap (λ p. splice p written (front ++ at.more)) gap
            ∙ splice_inside front at.more written k
            ∙ append_assoc (node_head_bytes head) (words_to_le us) (splice k written at.more);
        parent_word = at.parent_word;
        alloc_word = at.alloc_word;
        values_words = at.values_words;
      }

  pub NodeAt-behind :
      place + length written ≤ offset → NodeAt (splice place written bytes) offset head us
  NodeAt-behind le = record {
    more = at.more;
    here =
        drop-splice_after offset place written bytes (omega (arith, le)) (omega (arith, inside))
        ∙ at.here;
    parent_word = at.parent_word;
    alloc_word = at.alloc_word;
    values_words = at.values_words;
  }
