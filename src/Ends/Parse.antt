-- ===== src/Ends/Parse.antt =====
-- storage/Utils/parser.c: the loop over the lines of a text file ends, since each round takes a line.
use llp_base.Common.{
  ℕ, zero, suc, ◌+◌, ◌-◌, ◌≤◌, Bool, true, false, Bool-cases, inl, inr, List, [], ◌∷◌, ◌++◌, length,
  take, ◌==◌, arith,
}
use llp_base.OsFile.{World}
use llp_base.Text.{text_of, c_string, concat, split}
use llp_base.Commands.{
  storage_insert_command, add_prefix, fgets, parse_line, parse_lines, parse_file,
}
use llp_base.Commands.Refusal.{storage_insert_command-refusal}
use llp_base.Ends.{Ends, IsOver, returned, faulted, then-IsOver, if-IsOver, defined-IsOver}
use llp_base.Ends.Files.{read_tree_schema-Ends}
use llp_base.Ends.Nodes.{add_node-Ends}

-- Enough rounds for what is left of a file, and whether its end was met.
abbrev Enough : ℕ → List ℕ → Bool → Type 0
Enough fuel rest true = 1 ≤ fuel
Enough fuel rest false = length rest + 2 ≤ fuel

fgets-Enough_more :
    (n fuel : ℕ) (from : List ℕ)
    → length from + 2 ≤ fuel
    → Enough fuel (fgets n from).1 (fgets n from).2
unfolding fgets
fgets-Enough_more zero fuel from h = h
fgets-Enough_more (suc n) fuel [] h = omega arith
fgets-Enough_more (suc n) fuel (c ∷ from) h = elim (Bool-cases (c == 10)) [
  | inl e ↦ rw e (omega arith)
  | inr e ↦ rw e (fgets-Enough_more n fuel from (omega arith))
]

fgets-Enough :
    (n fuel : ℕ) (from : List ℕ)
    → length from + 1 ≤ fuel
    → Enough fuel (fgets (suc n) from).1 (fgets (suc n) from).2
unfolding fgets
fgets-Enough n fuel [] h = omega arith
fgets-Enough n fuel (c ∷ from) h = elim (Bool-cases (c == 10)) [
  | inl e ↦ rw e (omega arith)
  | inr e ↦ rw e (fgets-Enough_more n fuel from (omega arith))
]

module _ (strtod : List ℕ → ℕ) (behind : List ℕ) where
  module _ (types : List ℕ) (names : List (List ℕ)) (template_size : ℕ) where
    storage_insert_command-Ends :
        (fresh : List ℕ) (str : List (List ℕ))
        → Ends (storage_insert_command strtod behind types names fresh str template_size)
    storage_insert_command-Ends fresh str w =
        elim (storage_insert_command-refusal strtod behind types names fresh str template_size w) [
          | inl e ↦ rw e faulted
          | inr (inl (op, _, e)) ↦ rw e (returned op w)
          | inr (inr (values, id, _, _, e)) ↦
              rw e (then-IsOver (add_node-Ends fresh values _ w) (λ _ w. returned _ _))
        ]

    parse_line-Ends :
        (fresh line : List ℕ) → Ends (parse_line strtod behind types names template_size fresh line)
    unfolding parse_line
    parse_line-Ends fresh line w =
        then-IsOver
          (defined-IsOver (concat (c_string add_prefix) (c_string (take (length line - 1) line))) w)
          (λ prefix w.
            then-IsOver (defined-IsOver (split prefix 32 behind) w)
              (λ r w. storage_insert_command-Ends fresh r.1 w))

    parse_lines-Ends :
        (fuel : ℕ) (fresh : ℕ → List ℕ) (line rest : List ℕ) (eof : Bool)
        → Enough fuel rest eof
        → Ends (parse_lines strtod behind types names template_size fuel fresh (line, rest, eof))
    unfolding parse_lines
    parse_lines-Ends zero fresh line rest true h w = absurd (omega arith)
    parse_lines-Ends zero fresh line rest false h w = absurd (omega arith)
    parse_lines-Ends (suc fuel) fresh line rest true h w = returned _ _
    parse_lines-Ends (suc fuel) fresh line rest false h w =
        then-IsOver (defined-IsOver (text_of (line ++ 0 ∷ [])) w) (λ text w.
          if-IsOver (length text == 0) _ _ w (returned _ _) (
            then-IsOver (parse_line-Ends (fresh fuel) text w) (λ op w.
              then-IsOver
                (parse_lines-Ends fuel fresh _ _ _ (fgets-Enough 1022 fuel rest (omega arith)) w)
                (λ ops w. returned _ _))))

  -- `parseFile` ends on every text file, whatever the data file holds: with a round for each character
  -- of the text and two more it returns, or faults, and never runs out of rounds.
  pub parse_file-Ends :
      (fresh : ℕ → List ℕ) (from : List ℕ) (w : World)
      → IsOver (parse_file strtod behind fresh from w)
  unfolding parse_file
  parse_file-Ends fresh from w = then-IsOver (read_tree_schema-Ends w) (λ p w.
      parse_lines-Ends _ _ _ (length from + 2) fresh _ _ _
        (fgets-Enough 1022 (length from + 2) from (omega arith)) w)
