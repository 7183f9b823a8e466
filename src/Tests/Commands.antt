-- ===== src/Tests/Commands.antt =====
-- Witnesses of the theorems about commands, and some runs.
use llp_base.Common.{ℕ, ◌≡◌, ◌≢◌, ◌⊎◌, refl, some, true, false, List, [], ◌∷◌, get_elem?, replicate}
use llp_base.OsFile.{World, ok, fault, pure, ◌>>◌}
use llp_base.Inner.{FieldValue, add_node, str_equal}
use llp_base.Text.{c_string, is_numeric, split, text_of, count_parts}
use llp_base.Commands.{StorageOp, success, conversion_fail, storage_insert_command, strtol, fgets}
use llp_base.Commands.Refusal.{storage_insert_command-refusal}

abbrev key : List ℕ
key = b'k' ∷ 0 ∷ []

abbrev empty : World
empty = record { bytes = []; pos = 0; usable = λ n. n }

-- "add 0 k=x", where "k" is an INT.
abbrev arguments : List (List ℕ)
arguments = (b'a' ∷ b'd' ∷ b'd' ∷ []) ∷ (b'0' ∷ []) ∷ (b'k' ∷ b'=' ∷ b'x' ∷ []) ∷ []

storage_insert_command-refusal_example :
    (storage_insert_command
        (λ s. 0)
        (0 ∷ [])
        (0 ∷ [])
        (key ∷ [])
        (replicate 256 0)
        arguments
        1
        empty
      ≡ fault)
    ⊎ ((op : StorageOp) × (op ≢ success)
        × (storage_insert_command
              (λ s. 0)
              (0 ∷ [])
              (0 ∷ [])
              (key ∷ [])
              (replicate 256 0)
              arguments
              1
              empty
            ≡ ok op empty))
    ⊎ ((values : List FieldValue) × (id : List ℕ) × (get_elem? arguments 1 ≡ some id)
        × (is_numeric (c_string id) ≡ some true)
        × (storage_insert_command
              (λ s. 0)
              (0 ∷ [])
              (0 ∷ [])
              (key ∷ [])
              (replicate 256 0)
              arguments
              1
              empty
            ≡ (add_node (replicate 256 0) values (strtol id) >> pure success) empty))
storage_insert_command-refusal_example =
    storage_insert_command-refusal (λ s. 0) (0 ∷ []) (0 ∷ []) (key ∷ []) (replicate 256 0) arguments
      1 empty

-- These arguments are refused.
insert_text_for_int :
    storage_insert_command (λ s. 0) (0 ∷ []) (0 ∷ []) (key ∷ []) (replicate 256 0) arguments 1 empty
    ≡ ok conversion_fail empty
unfolding storage_insert_command is_numeric split text_of count_parts str_equal
insert_text_for_int = refl

minus_twelve : strtol (32 ∷ b'-' ∷ b'1' ∷ b'2' ∷ b'x' ∷ []) ≡ 18446744073709551604
unfolding strtol
minus_twelve = refl

two_lines : fgets 1023 (97 ∷ 10 ∷ 98 ∷ []) ≡ (97 ∷ 10 ∷ [], 98 ∷ [], false)
unfolding fgets
two_lines = refl
