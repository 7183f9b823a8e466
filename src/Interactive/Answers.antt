-- ===== src/Interactive/Answers.antt =====
-- What a user types when `initFile` asks, and the file that it makes of it.
use llp_base.Common.{
  ℕ, zero, suc, ◌+◌, ◌%◌, ◌^◌, ◌<◌, ◌≤◌, ◌≡◌, refl, Option, none, some, List, [], ◌∷◌, ◌++◌, map,
  length, length-map, arith, lt→ltb,
}
use llp_base.OsFile.{World, ok}
use llp_base.DataFile.{attribute_name_room}
use llp_base.Initializer.{real_size}
use llp_base.Initializer.EmptyFile.{init_empty_file-IsStore}
use llp_base.Initializer.Template.{AreFields, new_tree}
use llp_base.Text.{c_string}
use llp_base.Format.{digits_before, decimal}
use llp_base.Format.Decimal.{strtol-decimal}
use llp_base.Commands.{strtol}
use llp_base.Interactive.Setup.{
  ask_again, numeric_text, one_character, name_size, read_template, init_file,
}
use llp_base.Store.Slots.{IsStore}
use llp_base.Interactive.Words.{
  IsWord, typed, read_word-first, read_word-typed, decimal-IsWord, length-decimal_le,
}

-- A name and a type, as the user gives them: a type is a digit.
pub record IsAnswer (usable : ℕ → ℕ) (fresh : ℕ → List ℕ) (name : List ℕ) (type : ℕ) : Type 0 where
  pub word : IsWord name
  pub fits : length name < usable 1024
  pub short : length name < 2 ^ 31
  pub digit_type : type < 10
  pub block : length (fresh (real_size (name_size name))) ≡ real_size (name_size name)
  pub room : real_size (name_size name) ≤ usable (attribute_name_room (real_size (name_size name)))

-- The words of the answers, and what is asked of them.
abbrev pub answers : List (List ℕ × ℕ) → List (List ℕ)
answers [] = []
answers ((name, type) ∷ attributes) = name ∷ decimal type ∷ answers attributes

abbrev pub AreAnswers : (ℕ → ℕ) → (ℕ → List ℕ) → List (List ℕ × ℕ) → Type 0
AreAnswers usable fresh [] = Unit {0}
AreAnswers usable fresh ((name, type) ∷ attributes) =
    IsAnswer usable fresh name type × AreAnswers usable fresh attributes

abbrev pub names_of : List (List ℕ × ℕ) → List (List ℕ)
names_of attributes = map (λ a. c_string a.0) attributes

abbrev pub types_of_answers : List (List ℕ × ℕ) → List ℕ
types_of_answers attributes = map (λ a. a.1) attributes

abbrev pub sizes_of : List (List ℕ × ℕ) → List ℕ
sizes_of attributes = map (λ a. name_size a.0) attributes

length-c_string : (s : List ℕ) → length (c_string s) ≡ length s + 1
length-c_string [] = refl
length-c_string (c ∷ s) = omega (arith, length-c_string s)

name_size-bounds : (s : List ℕ) → 0 < length s → (0 < name_size s) × (name_size s ≤ length s + 1)
unfolding name_size
name_size-bounds s h = ground arith

module _ (fresh : ℕ → List ℕ) where
  answers-AreFields :
      (usable : ℕ → ℕ) (attributes : List (List ℕ × ℕ))
      → AreAnswers usable fresh attributes
      → AreFields usable fresh
          (names_of attributes)
          (types_of_answers attributes)
          (sizes_of attributes)
  answers-AreFields usable [] h = tt
  answers-AreFields usable (([], type) ∷ attributes) h = absurd h.0.word
  answers-AreFields usable ((c ∷ name, type) ∷ attributes) h =
      let b = name_size-bounds (c ∷ name) (omega arith) in
      (
        record {
          named = omega (arith, b.1, length-c_string name);
          not_empty = b.0;
          small = omega (arith, b.1, h.0.short);
          type_word = omega (arith, h.0.digit_type);
          block = h.0.block;
          room = h.0.room;
        },
        answers-AreFields usable attributes h.1,
      )

  length-decimal : (n : ℕ) → n < 10 → length (decimal n) ≡ 1
  unfolding decimal digits_before
  length-decimal n h = rw (lt→ltb n 10 h) refl

  read_template-answers :
      (w : World) (fuel : ℕ) (type : Option (List ℕ)) (attributes : List (List ℕ × ℕ))
      (rest : List ℕ)
      → 0 < fuel
      → 1 < w.usable 1024
      → AreAnswers w.usable fresh attributes
      → read_template fuel (length attributes) type (typed (answers attributes) rest) w
        ≡ ok
            (
              record {
                str_array = names_of attributes;
                types = types_of_answers attributes;
                sizes = sizes_of attributes;
              },
              10 ∷ rest,
            )
            w
  unfolding read_template ask_again one_character
  read_template-answers w zero type attributes rest pos room h = absurd (omega arith)
  read_template-answers w (suc fuel) type [] rest pos room h = refl
  read_template-answers w (suc fuel) type ((name, t) ∷ attributes) rest pos room h =
      let number : IsWord (decimal t) = decimal-IsWord t in
      let one = length-decimal t h.0.digit_type in
      let value : strtol (decimal t) % 2 ^ 32 ≡ t =
        omega (arith, (strtol-decimal t (omega (arith, h.0.digit_type))).0, h.0.digit_type) in
      rw
        (
          read_word-typed none name (decimal t ∷ answers attributes) rest w h.0.word h.0.fits,
          read_word-typed type (decimal t) (answers attributes) rest w number
              (omega (arith, one, room)),
          one,
          read_template-answers w (suc fuel) (some (decimal t)) attributes rest pos room h.1,
          value,
        )
        refl

  -- `initFile` on an empty file, of answers that it takes: a number of attributes, at most 2^20, and
  -- for each a name without spaces, shorter than its buffer, and a digit for its type, with blocks as
  -- large as they are asked for, and large enough to read the name again. It
  -- leaves the rest of the input, and the file then is a stored tree without nodes, whose attributes
  -- have these names and types.
  pub init_file-IsStore :
      (w : World) (attributes : List (List ℕ × ℕ)) (rest : List ℕ)
      → w.bytes ≡ []
      → 20 < w.usable 1024
      → length attributes ≤ 2 ^ 20
      → AreAnswers w.usable fresh attributes
      → (w' : World) × (init_file fresh
            (decimal (length attributes) ++ typed (answers attributes) rest)
            w
          ≡ ok (10 ∷ rest) w')
        × IsStore w'.usable w'.bytes
            (new_tree fresh
              (names_of attributes)
              (types_of_answers attributes)
              (sizes_of attributes))
            []
  unfolding init_file ask_again numeric_text
  init_file-IsStore w attributes rest empty room few h =
      let count = length attributes in
      let input : List ℕ = decimal count ++ typed (answers attributes) rest in
      let rounds : length input + 1 ≡ suc (length input) = omega arith in
      let number = strtol-decimal count (omega (arith, few)) in
      let as_many : length (names_of attributes) ≡ count =
        length-map (λ (a : List ℕ × ℕ). c_string a.0) attributes in
      let (w', made, store, _) =
        init_empty_file-IsStore w fresh (names_of attributes) (types_of_answers attributes)
          (sizes_of attributes) (answers-AreFields w.usable attributes h)
          (omega (arith, few, as_many)) empty in
      (
        w',
        rw
            (
              rounds,
              read_word-first none (decimal count) (answers attributes) rest w
                  (decimal-IsWord count) (omega (arith, length-decimal_le count, room)),
              number.1,
              number.0,
              read_template-answers w (suc (length input)) none attributes rest (omega arith)
                  (omega (arith, room)) h,
              ← as_many,
              made,
            )
            refl,
        store,
      )
