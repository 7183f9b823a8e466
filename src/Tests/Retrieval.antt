-- ===== src/Tests/Retrieval.antt =====
-- Witnesses of the theorems about "find_by".
use llp_base.Common.{ℕ, ◌≡◌, refl, List, [], ◌∷◌, map}
use llp_base.OsFile.{pure, ◌>>=◌}
use llp_base.Text.{is_numeric}
use llp_base.Inner.{word, find_by_parent}
use llp_base.Commands.{storage_retrive_node, listing, fields, parent_text, id_text, atoi}
use llp_base.Commands.Retrieval.{retrieve_by_parent-children_of_0, retrieve_by_id-Holds}
use llp_base.Store.Get.{Reads}
use llp_base.Tests.Trees.{grown, grown-Holds, first_node, types}

abbrev five : List ℕ
five = b'5' ∷ []

abbrev zero_text : List ℕ
zero_text = b'0' ∷ []

retrieve_by_parent-children_of_0_example :
    storage_retrive_node (λ s. 0) 1 types [] ([] ∷ parent_text ∷ five ∷ []) 3 grown
    ≡ (find_by_parent 0 [] >>= λ set. pure (listing set)) grown
unfolding is_numeric
retrieve_by_parent-children_of_0_example =
    retrieve_by_parent-children_of_0 (λ s. 0) 1 types [] [] five grown refl

retrieve_by_id-Holds_example :
    Reads
      (storage_retrive_node (λ s. 0) 1 types [] ([] ∷ id_text ∷ zero_text ∷ []) 3 grown)
      (fields (map word (7 ∷ 1 ∷ [])))
      grown
unfolding is_numeric atoi
retrieve_by_id-Holds_example =
    retrieve_by_id-Holds (λ s. 0) 1 [] [] zero_text 0 first_node grown grown-Holds
      (refl, (refl, tt)) refl (λ w'. refl) refl
