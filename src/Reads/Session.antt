-- ===== src/Reads/Session.antt =====
-- The interactive mode's loop: only the commands add, update and remove change the file.
use llp_base.Common.{
  ℕ, ◌+◌, refl, Bool, true, false, ◌||◌, List, [], ◌∷◌, length, get_elem?, map, ◌==◌, codes,
}
use llp_base.OsFile.{World}
use llp_base.BaseApi.{attribute_type, attribute_name_of}
use llp_base.Inner.{str_equal}
use llp_base.Text.{c_string, split}
use llp_base.Interactive.{
  Reply, helped, added, updated, deleted, wrong_number, unknown_command, exited, waiting, word_is,
  Surroundings, print_command, remove_command, add_command, run_line, run_lines, lines_of,
  skip_first, start,
}
use llp_base.Reads.{Reads, pure-Reads, then-Keeps, if-Keeps, defined-Reads}
use llp_base.Reads.Spares.{
  Spares, spared, Keeps-Spares, then-Spares, change-Spares, if-Spares, both-Spares,
}
use llp_base.Reads.Files.{read_tree_schema-Reads}
use llp_base.Reads.Printing.{print_nodes_from-Reads, print_tree_schema-Reads}
use llp_base.Reads.Retrieving.{storage_retrive_node-Reads}

-- Whether a reply is that of a command that changes the file.
abbrev pub is_change : Reply → Bool
is_change (added op) = true
is_change (updated op) = true
is_change (deleted op) = true
is_change _ = false

abbrev pub any_change : List Reply → Bool
any_change [] = false
any_change (reply ∷ replies) = is_change reply || any_change replies

word_is-Reads : (word text : List ℕ) → Reads (word_is word text)
unfolding word_is
word_is-Reads word text w = defined-Reads (str_equal (c_string word) (c_string text)) w

module _ (env : Surroundings) (types : List ℕ) (names : List (List ℕ)) (template_size : ℕ) where
  print_command-Reads :
      (argv : List (List ℕ)) (count : ℕ)
      → Reads (print_command env types names template_size argv count)
  unfolding print_command
  print_command-Reads argv count w =
      if-Keeps (count == 2) _ _ w
        (then-Keeps (defined-Reads (get_elem? argv 1) w) (λ what w.
          then-Keeps (word_is-Reads what (codes "schema") w) (λ schema w.
            then-Keeps (word_is-Reads what (codes "nodes") w) (λ nodes w.
              if-Keeps schema _ _ w
                (then-Keeps (print_tree_schema-Reads w) (λ text w. pure-Reads _ w))
                (if-Keeps nodes _ _ w
                  (then-Keeps (print_nodes_from-Reads env.show_double env.fuel w)
                    (λ text w. pure-Reads _ w))
                  (pure-Reads _ w))))))
        (pure-Reads _ w)

  add_command-Spares :
      (fresh : List ℕ) (argv : List (List ℕ)) (count : ℕ) (w : World)
      → Spares w.bytes is_change (add_command env types names template_size fresh argv count w)
  unfolding add_command
  add_command-Spares fresh argv count w =
      if-Spares (count == template_size + 2) _ _ w (change-Spares is_change _ added (λ op. refl))
        (spared wrong_number w (λ _. refl))

  remove_command-Spares :
      (argv : List (List ℕ)) (count : ℕ) (w : World)
      → Spares w.bytes is_change (remove_command env types names template_size argv count w)
  unfolding remove_command
  remove_command-Spares argv count w =
      if-Spares (count == 2) _ _ w
        (then-Spares is_change _ _ (defined-Reads (get_elem? argv 1) w)
          (λ id w. change-Spares is_change _ deleted (λ op. refl)))
        (spared _ w (λ _. refl))

  run_line-Spares :
      (fresh command : List ℕ) (argv : List (List ℕ)) (count : ℕ) (w : World)
      → Spares w.bytes is_change (run_line env types names template_size fresh command argv count w)
  unfolding run_line
  run_line-Spares fresh command argv count w =
      then-Spares is_change _ _ (word_is-Reads command (codes "help") w) (λ help w.
        then-Spares is_change _ _ (word_is-Reads command (codes "find_by") w) (λ find w.
          then-Spares is_change _ _ (word_is-Reads command (codes "add") w) (λ add w.
            then-Spares is_change _ _ (word_is-Reads command (codes "update") w) (λ update w.
              then-Spares is_change _ _ (word_is-Reads command (codes "remove") w) (λ remove w.
                then-Spares is_change _ _ (word_is-Reads command (codes "print") w) (λ print w.
                  if-Spares help _ _ w (spared helped w (λ _. refl)) (
                    if-Spares find _ _ w
                      (Keeps-Spares is_change _ (
                        then-Keeps
                          (storage_retrive_node-Reads env.strtod env.fuel types names argv count w)
                          (λ answer w. pure-Reads _ w)))
                      (if-Spares add _ _ w (add_command-Spares fresh argv count w) (
                        if-Spares update _ _ w (change-Spares is_change _ updated (λ op. refl)) (
                          if-Spares remove _ _ w (remove_command-Spares argv count w) (
                            if-Spares print _ _ w
                              (Keeps-Spares is_change _ (print_command-Reads argv count w))
                              (spared unknown_command w (λ _. refl)))))))))))))

  run_lines-Spares :
      (blocks : ℕ → List ℕ) (lines : List (List ℕ)) (w : World)
      → Spares w.bytes
          (λ r. any_change r.0)
          (run_lines env types names template_size blocks lines w)
  unfolding run_lines
  run_lines-Spares blocks [] w = spared ([], waiting) w (λ _. refl)
  run_lines-Spares blocks (line ∷ lines) w =
      then-Spares _ _ _ (defined-Reads (split (c_string line) 32 env.behind) w) (λ p w.
        then-Spares _ _ _ (defined-Reads (get_elem? p.1 0) w) (λ command w.
          then-Spares _ _ _ (word_is-Reads command (codes "exit") w) (λ leave w.
            if-Spares leave _ _ w (spared ([], exited) w (λ _. refl)) (
              both-Spares is_change (λ r. any_change r.0) (λ r. any_change r.0)
                (λ reply r. (reply ∷ r.0, r.1)) (λ reply r. refl) _ _
                (run_line-Spares (blocks (length lines)) command p.1 p.0 w)
                (λ reply w. run_lines-Spares blocks lines w)))))

-- A session of the interactive mode on a file, whatever that holds: where it comes to the end of its
-- lines, and no reply is that of the commands add, update and remove, the file is as it was. So it is
-- after searches and prints, and after lines that are refused or not understood.
pub start-Spares :
    (env : Surroundings) (blocks : ℕ → List ℕ) (input : List ℕ) (w : World)
    → Spares w.bytes (λ r. any_change r.0) (start env blocks input w)
unfolding start
start-Spares env blocks input w = then-Spares _ _ _ (read_tree_schema-Reads w) (λ p w.
    run_lines-Spares env (map attribute_type p.1.nodes_template)
      (map attribute_name_of p.1.nodes_template) p.1.meta.template_size blocks
      (skip_first (lines_of input)) w)
