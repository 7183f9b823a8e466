-- ===== src/Commands/Refusal.antt =====
-- What `storageInsertNode` leaves behind when it refuses its arguments.
use llp_base.Common.{
  ℕ, zero, suc, ◌+◌, ◌≡◌, refl, ◌≢◌, ◌⊎◌, inl, inr, Bool, true, false, Option, none, some, List, [],
  ◌∷◌, get_elem?, set, if◌then◌else◌, ◌==◌, drop, replicate,
}
use llp_base.OsFile.{World, Io, ok, fault, pure, undefined, ◌>>=◌, ◌>>◌}
use llp_base.DataFile.{defined}
use llp_base.Inner.{FieldValue, str_equal, add_node}
use llp_base.Public.{first_field, FieldArray, all_set}
use llp_base.Text.{c_string, is_numeric, split}
use llp_base.Commands.{
  StorageOp, success, id_format_fail, wrong_args_number_fail, template_fail, conversion_fail,
  id_not_exist_fail, bool_text, int_text, text_value, named_field, insert_fields, true_text,
  false_text, add_inserted, storage_insert_command, strtol, given, kept, unreadable,
}

-- An action that returns without a change of the file or the stream, or faults.
abbrev IsQuiet : {A : Type 0} → Io A → Type 0
IsQuiet {A} m = (w : World) → ((a : A) × (m w ≡ ok a w)) ⊎ (m w ≡ fault)

module _ {A : Type 0} where
  pure-IsQuiet : (a : A) → IsQuiet (pure a)
  pure-IsQuiet a w = inl (a, refl)

  undefined-IsQuiet : IsQuiet {A = A} undefined
  undefined-IsQuiet w = inr refl

  defined-IsQuiet : (o : Option A) → IsQuiet (defined o)
  defined-IsQuiet none w = inr refl
  defined-IsQuiet (some a) w = inl (a, refl)

  bind-IsQuiet :
      {B : Type 0} (m : Io A) (f : A → Io B)
      → IsQuiet m
      → ((a : A) → IsQuiet (f a))
      → IsQuiet (m >>= f)
  bind-IsQuiet m f h k w = elim (h w) [ inl r ↦ rw r.1 (k r.0 w) | inr e ↦ inr (rw e refl) ]

  if-IsQuiet : (b : Bool) (m n : Io A) → IsQuiet m → IsQuiet n → IsQuiet (if b then m else n)
  if-IsQuiet true m n h k = h
  if-IsQuiet false m n h k = k

first_field-IsQuiet :
    (key : List ℕ) (names : List (List ℕ)) (i : ℕ) → IsQuiet (first_field key names i)
unfolding first_field
first_field-IsQuiet key [] i = pure-IsQuiet none
first_field-IsQuiet key (name ∷ names) i =
    bind-IsQuiet (defined (str_equal key name)) _ (defined-IsQuiet (str_equal key name))
      (λ same. if-IsQuiet same _ _ (pure-IsQuiet (some i)) (first_field-IsQuiet key names (i + 1)))

-- `bind-IsQuiet` after a value that may not be set.
defined_then-IsQuiet :
    {A B : Type 0} (o : Option A) (f : A → Io B)
    → ((a : A) → IsQuiet (f a))
    → IsQuiet (defined o >>= f)
defined_then-IsQuiet o f h = bind-IsQuiet (defined o) f (defined-IsQuiet o) h

bool_text-IsQuiet : (text : List ℕ) → IsQuiet (bool_text text)
unfolding bool_text
bool_text-IsQuiet text =
    defined_then-IsQuiet (str_equal (c_string text) (c_string true_text)) _ (λ t.
      defined_then-IsQuiet (str_equal (c_string text) (c_string false_text)) _
        (λ f. pure-IsQuiet _))

int_text-IsQuiet : (text : List ℕ) → IsQuiet (int_text (λ s. pure (strtol s)) text)
unfolding int_text
int_text-IsQuiet text =
    defined_then-IsQuiet (is_numeric (c_string text)) _
      (λ n. if-IsQuiet n _ _ (pure-IsQuiet _) (pure-IsQuiet unreadable))

Option-cases : {A : Type 0} (o : Option A) → (o ≡ none) ⊎ ((a : A) × (o ≡ some a))
Option-cases none = inl refl
Option-cases (some a) = inr (a, refl)

module _ (strtod : List ℕ → ℕ) (behind : List ℕ) (types : List ℕ) (names : List (List ℕ)) where
  text_value-IsQuiet :
      (type : ℕ) (parts : List (List ℕ))
      → IsQuiet (text_value strtod behind types names (λ s. pure (strtol s)) type parts)
  unfolding text_value
  text_value-IsQuiet type parts =
      let part = get_elem? parts 1 in
      if-IsQuiet (type == 3) _ _ (defined_then-IsQuiet part _ (λ t. bool_text-IsQuiet t)) (
        if-IsQuiet (type == 1) _ _ (defined_then-IsQuiet part _ (λ t. pure-IsQuiet _)) (
          if-IsQuiet (type == 0) _ _ (defined_then-IsQuiet part _ (λ t. int_text-IsQuiet t)) (
            if-IsQuiet (type == 2) _ _ (defined_then-IsQuiet part _ (λ t. pure-IsQuiet _))
              (pure-IsQuiet kept))))

  named_field-IsQuiet : (arg : List ℕ) → IsQuiet (named_field strtod behind types names arg)
  unfolding named_field
  named_field-IsQuiet arg = defined_then-IsQuiet (split (c_string arg) b'=' behind) _ (λ r.
      if-IsQuiet (r.0 == 2) _ _
        (defined_then-IsQuiet (get_elem? r.1 0) _ (λ key.
          bind-IsQuiet (first_field (c_string key) names 0) _
            (first_field-IsQuiet (c_string key) names 0) (λ found. pure-IsQuiet _)))
        (pure-IsQuiet none))

  insert_fields-IsQuiet :
      (n : ℕ) (args : List (List ℕ)) (fields : FieldArray)
      → IsQuiet (insert_fields strtod behind types names n args fields)
  unfolding insert_fields
  insert_fields-IsQuiet zero args fields w = pure-IsQuiet (success, fields) w
  insert_fields-IsQuiet (suc n) [] fields w = undefined-IsQuiet w
  insert_fields-IsQuiet (suc n) (arg ∷ args) fields w = elim (named_field-IsQuiet arg w) [
    | inr e ↦ inr (rw e refl)
    | inl (none, e) ↦ inl ((wrong_args_number_fail, fields), rw e refl)
    | inl (some (none, parts), e) ↦ inl ((template_fail, fields), rw e refl)
    | inl (some (some i, parts), e) ↦ elim (Option-cases (get_elem? types i)) [
      | inl k ↦ inr (rw (e, k) refl)
      | inr (type, k) ↦ elim (text_value-IsQuiet type parts w) [
        | inr v ↦ inr (rw (e, k, v) refl)
        | inl (given x, v) ↦ rw (e, k, v) (insert_fields-IsQuiet n args (set fields i (some x)) w)
        | inl (kept, v) ↦ rw (e, k, v) (insert_fields-IsQuiet n args fields w)
        | inl (unreadable, v) ↦ inl ((conversion_fail, fields), rw (e, k, v) refl)
      ]
    ]
  ]

  pub storage_insert_command-refusal :
      (fresh : List ℕ) (str : List (List ℕ)) (template_size : ℕ) (w : World)
      → (storage_insert_command strtod behind types names fresh str template_size w ≡ fault)
        ⊎ ((op : StorageOp) × (op ≢ success)
            × (storage_insert_command strtod behind types names fresh str template_size w
                ≡ ok op w))
        ⊎ ((values : List FieldValue) × (id : List ℕ) × (get_elem? str 1 ≡ some id)
            × (is_numeric (c_string id) ≡ some true)
            × (storage_insert_command strtod behind types names fresh str template_size w
                ≡ (add_node fresh values (strtol id) >> pure success) w))
  unfolding storage_insert_command add_inserted
  storage_insert_command-refusal fresh str template_size w = elim (Option-cases (get_elem? str 1)) [
    | inl e ↦ inl (rw e refl)
    | inr (id, e) ↦ elim (Option-cases (is_numeric (c_string id))) [
      | inl k ↦ inl (rw (e, k) refl)
      | inr (false, k) ↦ inr (inl (id_format_fail, (λ p. cc), rw (e, k) refl))
      | inr (true, k) ↦
          elim (insert_fields-IsQuiet template_size (drop 2 str) (replicate template_size none) w) [
            | inr f ↦ inl (rw (e, k, f) refl)
            | inl ((success, fields), f) ↦ elim (Option-cases (all_set fields)) [
              | inl u ↦ inl (rw (e, k, f, u) refl)
              | inr (values, u) ↦ inr (inr (values, id, e, k, rw (e, k, f, u) refl))
            ]
            | inl ((id_format_fail, fields), f) ↦
                inr (inl (id_format_fail, (λ p. cc), rw (e, k, f) refl))
            | inl ((wrong_args_number_fail, fields), f) ↦
                inr (inl (wrong_args_number_fail, (λ p. cc), rw (e, k, f) refl))
            | inl ((template_fail, fields), f) ↦
                inr (inl (template_fail, (λ p. cc), rw (e, k, f) refl))
            | inl ((conversion_fail, fields), f) ↦
                inr (inl (conversion_fail, (λ p. cc), rw (e, k, f) refl))
            | inl ((id_not_exist_fail, fields), f) ↦
                inr (inl (id_not_exist_fail, (λ p. cc), rw (e, k, f) refl))
          ]
    ]
  ]
