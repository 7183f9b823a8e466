-- ===== src/Inner/Values.antt =====
-- The values of a node in memory, and result sets.
use llp_base.Common.{
  ℕ, zero, suc, Option, none, some, Bool, true, false, List, [], ◌∷◌, ◌==◌, if◌then◌else◌,
}
use llp_base.OsFile.{Io, pure, undefined}
use llp_base.Schema.{KeyNode}

-- A `uint64_t` of a `values` array is a number, or a `char*`: the bytes of memory from there on.
pub data FieldValue : Type 0 where
  word : ℕ → FieldValue
  chars : List ℕ → FieldValue

abbrev pub as_word : FieldValue → Io ℕ
as_word (word n) = pure n
as_word (chars cs) = undefined

abbrev pub as_chars : FieldValue → Io (List ℕ)
as_chars (word n) = undefined
as_chars (chars cs) = pure cs

-- `struct resultSetNode`; `prev` leads to the node that was found before.
pub record ResultSetNode : Type 0 where
  pub value : KeyNode
  pub id : ℕ

abbrev pub ResultSet : Type 0
ResultSet = List ResultSetNode

unfoldable pub append_to_result_set : KeyNode → ℕ → ResultSet → ResultSet
append_to_result_set node id set = record { value = node; id = id } ∷ set

-- `strcmp(s, t) == 0`, or `none` when it reads past what is set.
unfoldable pub str_equal : List ℕ → List ℕ → Option Bool
str_equal [] t = none
str_equal (c ∷ s) [] = none
str_equal (zero ∷ s) (zero ∷ t) = some true
str_equal (zero ∷ s) (suc d ∷ t) = some false
str_equal (suc c ∷ s) (zero ∷ t) = some false
str_equal (suc c ∷ s) (suc d ∷ t) = let rest = str_equal s t in if c == d then rest else some false
