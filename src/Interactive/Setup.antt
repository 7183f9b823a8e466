-- ===== src/Interactive/Setup.antt =====
-- `initFile` and `initialize`.
use llp_base.Common.{
  ℕ, zero, suc, ◌+◌, ◌%◌, ◌^◌, Option, none, some, Bool, List, [], ◌∷◌, length, get_elem?, ltb,
  ◌==◌, ◌||◌, if◌then◌else◌,
}
use llp_base.OsFile.{
  World, Run, ok, fault, Io, pure, undefined, no_fuel, ◌>>=◌, ◌>>◌, usable_size, FileTable,
  existing, emptied, open_or_create_file,
}
use llp_base.Schema.Sizes.{file_granularity}
use llp_base.DataFile.{defined}
use llp_base.Initializer.{init_empty_file}
use llp_base.Text.{c_string, is_numeric}
use llp_base.Commands.{is_space, strtol, parse_file}

-- The characters before the next space, and the rest.
unfoldable pub take_word : List ℕ → List ℕ × List ℕ
take_word [] = ([], [])
take_word (c ∷ input) =
    let (word, rest) = take_word input in if is_space c then ([], c ∷ input) else (c ∷ word, rest)

-- `scanf("%s", ...)`: the word that it stores, none at the end of the input, and the input behind it.
unfoldable pub scan_word : List ℕ → Option (List ℕ) × List ℕ
unfolding take_word
scan_word [] = (none, [])
scan_word (c ∷ input) =
    let rest = scan_word input in
    let (word, behind) = take_word input in if is_space c then rest else (some (c ∷ word), behind)

-- A word read into a block of `INPUT_SIZE` bytes, which holds `old` when there is no word.
unfoldable pub read_word : Option (List ℕ) → List ℕ → Io (Option (List ℕ) × List ℕ)
unfolding scan_word
read_word old input =
    let (word, rest) = scan_word input in
    elim word [
      | none ↦ pure (old, rest)
      | some text ↦ do
        room ← usable_size 1024
        if ltb (length text) room then pure (some text, rest) else undefined
    ]

-- The two loops that ask again: until a text passes the test; a text that was never set is not read.
unfoldable pub ask_again : (List ℕ → Io Bool) → ℕ → Option (List ℕ) × List ℕ → Io (List ℕ × List ℕ)
unfolding read_word
ask_again good zero (text, input) = no_fuel
ask_again good (suc fuel) (text, input) = do
  current ← defined text
  passes ← good current
  if passes
      then pure (current, input)
      else do next ← read_word (some current) input; ask_again good fuel next

unfoldable pub numeric_text : List ℕ → Io Bool
numeric_text text = defined (is_numeric (c_string text))

unfoldable pub one_character : List ℕ → Io Bool
one_character text = pure (length text == 1)

-- The three arrays that the loop of `initFile` fills.
pub record Template : Type 0 where
  pub str_array : List (List ℕ)
  pub types : List ℕ
  pub sizes : List ℕ

-- The size that is noted of a name.
unfoldable pub name_size : List ℕ → ℕ
name_size str = length str + (if length str % file_granularity == 0 then 1 else 0)

-- The loop over the attributes; `type` is what the block for types holds. Input that has ended lets the
-- loop go on for ever, since `fuel` rounds read all words.
unfoldable pub read_template : ℕ → ℕ → Option (List ℕ) → List ℕ → Io (Template × List ℕ)
unfolding read_word ask_again one_character name_size
read_template fuel zero type input = pure (record { str_array = []; types = []; sizes = [] }, input)
read_template fuel (suc left) type input = do
  (name, input1) ← read_word none input
  str ← defined name
  first ← read_word type input1
  (text, input2) ← ask_again one_character fuel first
  (rest, input3) ← read_template fuel left (some text) input2
  pure (
    record {
      str_array = c_string str ∷ rest.str_array;
      types = strtol text % 2 ^ 32 ∷ rest.types;
      sizes = name_size str ∷ rest.sizes;
    },
    input3,
  )

-- The result is the input that is left.
unfoldable pub init_file : (ℕ → List ℕ) → List ℕ → Io (List ℕ)
unfolding read_template numeric_text
init_file fresh input = do
  first ← read_word none input
  (count_str, input1) ← ask_again numeric_text (length input + 1) first
  (template, input2) ← read_template (length input + 1) (strtol count_str) none input1
  init_empty_file fresh template.str_array template.types (strtol count_str) template.sizes
  pure input2

-- `argv[1][1]` of the program's arguments; the zero byte that ends a text is one of its characters.
unfoldable pub flag_of : List (List ℕ) → Option ℕ
flag_of argv = elim (get_elem? argv 1) [ none ↦ none | some arg ↦ get_elem? (c_string arg) 1 ]

-- The stream that a file's contents are opened as.
abbrev opened : (ℕ → ℕ) → List ℕ → World
opened usable bytes = record { bytes = bytes; pos = 0; usable = usable }

-- `initFile` and `parseFile` of a text file; its absence is found out when it is read, after `initFile`.
unfoldable pub init_and_parse :
    (List ℕ → ℕ) → List ℕ → (ℕ → List ℕ) → (ℕ → List ℕ) → Option (List ℕ) → List ℕ → Io (List ℕ)
init_and_parse strtod behind fresh blocks parsed input = do
  rest ← init_file fresh input
  from ← defined parsed
  parse_file strtod behind blocks from
  pure rest

-- `initialize`: `none` where it returns NULL, else the input that is left, and the stream. `argv` begins
-- with the program's name.
unfoldable pub initialize :
    (usable : ℕ → ℕ) (strtod : List ℕ → ℕ) (behind : List ℕ) (fresh blocks : ℕ → List ℕ)
    → List (List ℕ)
    → FileTable
    → List ℕ
    → Option (Run (List ℕ))
unfolding init_file init_and_parse flag_of open_or_create_file
initialize usable strtod behind fresh blocks argv files input =
    if ltb (length argv) 3 || ltb 4 (length argv) then none else elim (get_elem? argv 2) [
      | none ↦ none
      | some filename ↦ elim (flag_of argv) [
        | none ↦ some fault
        | some flag ↦
            let (_, old, _) = open_or_create_file existing filename files in
            let (_, _, made) = open_or_create_file emptied filename files in
            let (_, new, _) = open_or_create_file existing filename made in
            if flag == b'o'
            then elim old [ none ↦ none | some bytes ↦ some (ok input (opened usable bytes)) ]
            else if flag == b'n'
            then elim new [
              | none ↦ some fault
              | some bytes ↦ some (init_file fresh input (opened usable bytes))
            ]
            else if flag == b'p'
            then elim (get_elem? argv 3) [
              | none ↦ some fault
              | some v ↦
                  let (_, parsed, _) = open_or_create_file existing v files in
                  elim new [
                    | none ↦ some fault
                    | some bytes ↦ some (
                        init_and_parse strtod behind fresh blocks parsed input
                          (opened usable bytes))
                  ]
            ]
            else some fault
      ]
    ]
