-- ===== src/Store/Moved.antt =====
-- The stream's position in a stored tree.
use llp_base.Common.{ℕ, List}
use llp_base.OsFile.{World}
use llp_base.Store.Tree.{TreeNode, Holds}

-- Where the stream stands does not matter to what a file holds.
pub Holds-moved :
    {w : World} {types : List ℕ} {nodes : List TreeNode} (p : ℕ)
    → Holds w types nodes
    → Holds (record w { pos = p }) types nodes
Holds-moved {w} p h = record {
  tree = h.tree;
  area = h.area;
  store = h.store;
  typed = h.typed;
  no_strings = h.no_strings;
  count = h.count;
  filled = h.filled;
  size = h.size;
  placed = λ id n e.
      let i = h.placed id n e in
      record {
        offset = i.offset;
        slot = i.slot;
        low = i.low;
        high = i.high;
        node = i.node;
        full = i.full;
        at = i.at;
      };
}
