-- ===== src/Tests/Searches.antt =====
-- Witnesses of the theorems about searches with filters.
use llp_base.Common.{ℕ, ◌≡◌, refl, inr, [], ◌∷◌, take, arith, codes, some}
use llp_base.Inner.{ResultSet, str_equal}
use llp_base.Message.{Comparator, Filter}
use llp_base.Public.{storage_find_node_by_filters, last_field, single_comparator}
use llp_base.Public.Matching.{all_hold}
use llp_base.Store.Get.{Reads}
use llp_base.Store.Search.{matching, found_ids}
use llp_base.Store.Filtered.{AreFilters, IsByFilters, satisfies, storage_find_node_by_filters-Holds}
use llp_base.Tests.Trees.{types, names, first_node, second_node}
use llp_base.Tests.Changes.{both, both-Holds}

-- key = 7.
abbrev key_is_7 : Comparator
key_is_7 = record {
  operation = 0;
  kv = record {
    key = codes "key";
    value_type = 1;
    value_int = 7;
    value_real = 0;
    value_string = [];
  };
}

abbrev filter : Filter
filter = record { comp_list = key_is_7 ∷ [] }

abbrev index : Comparator → ℕ
index c = 0

filter-AreFilters : AreFilters index types names (filter ∷ [])
unfolding last_field str_equal
filter-AreFilters = (omega arith, (record { inside = omega arith; named = λ w. refl }, tt), tt)

filter-IsByFilters : IsByFilters (filter ∷ [])
unfolding single_comparator str_equal
filter-IsByFilters = inr (key_is_7, refl, refl, refl)

storage_find_node_by_filters-Holds_example :
    (rs : ResultSet) × Reads
      (storage_find_node_by_filters 1 (filter ∷ []) [] names both)
      (some rs)
      both
    × (found_ids rs []
        ≡ matching
            (λ n. all_hold (satisfies index n) (filter ∷ []))
            0
            (take 2 (first_node ∷ second_node ∷ [])))
storage_find_node_by_filters-Holds_example =
    storage_find_node_by_filters-Holds both-Holds index names filter [] filter-AreFilters
      (omega arith) filter-IsByFilters 1
