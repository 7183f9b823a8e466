-- ===== src/Public/Typed.antt =====
-- The values that `storageInsertNodeNew` takes from the settings of a query.
use mathlib.Core.Path.{subst}
use mathlib.Core.Option.{some-injective, none-ne-some}
use llp_base.Common.{
  ℕ, zero, suc, ◌+◌, ◌^◌, ◌<◌, ◌≤◌, ◌≡◌, ◌≢◌, ◌⊎◌, inl, inr, refl, sym, ap, Option, none, some,
  true, false, Bool-cases, List, [], ◌∷◌, map, length, get_elem?, set, replicate, arith, ◌==◌,
  AreWords, get_elem?-lt,
}
use llp_base.OsFile.{World, Io, ok}
use llp_base.Inner.{FieldValue, word, chars}
use llp_base.Schema.{string_type}
use llp_base.Store.Slots.{NoStrings}
use llp_base.Message.{KeyValuePair, ValueSetting}
use llp_base.Public.Fields.{
  char_array, convert, Converted, stored, untouched, bool_error, float_error, int_error, str_error,
}
use llp_base.Public.Insert.{
  ErrCode, ok_code, pattern_error, bool_code, float_code, int_code, str_code, FieldArray, put_field,
  go_on, fill_fields, all_set,
}
use llp_base.Public.Terminated.{
  AreTerminated, char_array-IsTerminated, IsBelow, first_field-IsBelow,
}

-- A value that fits an attribute's type: a text for a STRING, and for the others a 64-bit number.
abbrev pub IsTyped : ℕ → Option FieldValue → Type 0
IsTyped type none = Unit {0}
IsTyped type (some (word v)) = ((type == string_type) ≡ false) × (v < 2 ^ 64)
IsTyped type (some (chars cs)) = (type == string_type) ≡ true

abbrev pub AreTyped : List ℕ → FieldArray → Type 0
AreTyped [] [] = Unit {0}
AreTyped (type ∷ types) (f ∷ fields) = IsTyped type f × AreTyped types fields
AreTyped _ _ = ⊥

AreTyped-set :
    (types : List ℕ) (fields : FieldArray) (i type : ℕ) (v : FieldValue)
    → AreTyped types fields
    → get_elem? types i ≡ some type
    → IsTyped type (some v)
    → AreTyped types (set fields i (some v))
AreTyped-set [] [] i type v h here k = absurd (none-ne-some type here)
AreTyped-set [] (f ∷ fields) i type v h here k = absurd h
AreTyped-set (t ∷ types) [] i type v h here k = absurd h
AreTyped-set (t ∷ types) (f ∷ fields) zero type v h here k =
    (subst (λ a. IsTyped a (some v)) (sym (some-injective t type here)) k, h.1)
AreTyped-set (t ∷ types) (f ∷ fields) (suc i) type v h here k =
    (h.0, AreTyped-set types fields i type v h.1 here k)

pub AreTyped-unset : (types : List ℕ) → AreTyped types (replicate (length types) none)
AreTyped-unset [] = tt
AreTyped-unset (type ∷ types) = (tt, AreTyped-unset types)

-- A message as it is decoded: a key that fits its array with the zero byte, and a 64-bit number.
pub record IsDecoded (s : ValueSetting) : Type 0 where
  pub key_fits : length s.kv.key ≤ 1023
  pub int_word : s.kv.value_int < 2 ^ 64

abbrev pub AreDecoded : List ValueSetting → Type 0
AreDecoded [] = Unit {0}
AreDecoded (s ∷ settings) = IsDecoded s × AreDecoded settings

abbrev Fitting : ℕ → Converted → Type 0
Fitting type (stored v) = IsTyped type (some v)
Fitting type _ = Unit {0}

-- A field is put in its place, and the loop goes on, or it ends with an error.
put_field-AreTyped :
    (types : List ℕ) (fields : FieldArray) (i type : ℕ) (c : Converted)
    (next : FieldArray → Io (FieldArray × ErrCode)) (w : World)
    → AreTyped types fields
    → get_elem? types i ≡ some type
    → Fitting type c
    → ((fields : FieldArray)
        → AreTyped types fields
        → (fields' : FieldArray) × (code : ErrCode) × (next fields w ≡ ok (fields', code) w)
          × AreTyped types fields')
    → (fields' : FieldArray) × (code : ErrCode) × (go_on
          (put_field fields i c).1
          (next (put_field fields i c).0)
          (put_field fields i c).0
          w
        ≡ ok (fields', code) w)
      × AreTyped types fields'
unfolding put_field
put_field-AreTyped types fields i type (stored v) next w typed here fits rest =
    rest _ (AreTyped-set types fields i type v typed here fits)
put_field-AreTyped types fields i type untouched next w typed here fits rest = rest _ typed
put_field-AreTyped types fields i type bool_error next w typed here fits rest =
    (fields, bool_code, refl, typed)
put_field-AreTyped types fields i type float_error next w typed here fits rest =
    (fields, float_code, refl, typed)
put_field-AreTyped types fields i type int_error next w typed here fits rest =
    (fields, int_code, refl, typed)
put_field-AreTyped types fields i type str_error next w typed here fits rest =
    (fields, str_code, refl, typed)

module _ (to_double : ℕ → ℕ) (doubles : (n : ℕ) → to_double n < 2 ^ 64) where
  convert-Fitting :
      (type : ℕ) (kv : KeyValuePair)
      → kv.value_int < 2 ^ 64
      → Fitting type (convert to_double type kv)
  unfolding convert
  convert-Fitting type kv h = elim (Bool-cases (type == 3)) [
    | inl e ↦ elim (Bool-cases (kv.value_int == 1)) [
      | inl f ↦ rw (e, f) (not_string 3 e (omega arith), omega arith)
      | inr f ↦ elim (Bool-cases (kv.value_int == 0)) [
        | inl g ↦ rw (e, f, g) (not_string 3 e (omega arith), omega arith)
        | inr g ↦ rw (e, f, g) tt
      ]
    ]
    | inr e ↦ elim (Bool-cases (type == 1)) [
      | inl f ↦ elim (Bool-cases (kv.value_type == 2)) [
        | inl g ↦ rw (e, f, g) (not_string 1 f (omega arith), doubles kv.value_real)
        | inr g ↦ rw (e, f, g) tt
      ]
      | inr f ↦ elim (Bool-cases (type == 0)) [
        | inl g ↦ elim (Bool-cases (kv.value_type == 1)) [
          | inl k ↦ rw (e, f, g, k) (not_string 0 g (omega arith), h)
          | inr k ↦ rw (e, f, g, k) tt
        ]
        | inr g ↦ elim (Bool-cases (type == 2)) [
          | inl k ↦ elim (Bool-cases (kv.value_type == 0)) [
            | inl l ↦ rw (e, f, g, k, l) k
            | inr l ↦ rw (e, f, g, k, l) tt
          ]
          | inr k ↦ rw (e, f, g, k) tt
        ]
      ]
    ]
  ]
    where
      not_string : (n : ℕ) → (type == n) ≡ true → n ≢ 2 → (type == string_type) ≡ false
      not_string n e ne = ground arith

  pub fill_fields-AreTyped :
      (types : List ℕ) (names : List (List ℕ)) (settings : List ValueSetting) (fields : FieldArray)
      (w : World)
      → length types ≡ length names
      → AreTerminated names
      → AreDecoded settings
      → AreTyped types fields
      → (fields' : FieldArray) × (code : ErrCode) × (fill_fields to_double types names settings
            fields w
          ≡ ok (fields', code) w)
        × AreTyped types fields'
  unfolding fill_fields
  fill_fields-AreTyped types names [] fields w same ends d typed = (fields, ok_code, refl, typed)
  fill_fields-AreTyped types names (s ∷ settings) fields w same ends d typed =
      let (found, looked, below) =
        first_field-IsBelow (char_array s.kv.key) names 0 w
          (char_array-IsTerminated s.kv.key d.0.key_fits) ends in
      elim (Found-cases found) [
        | inl e ↦ (fields, pattern_error, rw (looked, e) refl, typed)
        | inr (i, e) ↦
            let lt : i < length types =
              omega (arith, same, subst (IsBelow (0 + length names)) e below) in
            let (type, here) = get_elem?-lt types i lt in
            let (fields', code, run, typed') =
              put_field-AreTyped types fields i type (convert to_double type s.kv)
                (fill_fields to_double types names settings) w typed here
                (convert-Fitting type s.kv d.0.int_word)
                (λ next. fill_fields-AreTyped types names settings next w same ends d.1) in
            (fields', code, rw (looked, e, here) run, typed')
      ]
    where
      Found-cases : (r : Option ℕ) → (r ≡ none) ⊎ ((i : ℕ) × (r ≡ some i))
      Found-cases none = inl refl
      Found-cases (some i) = inr (i, refl)

-- Of an array of which every entry is set, when no attribute is a STRING: numbers, one to an attribute.
pub all_set-cases :
    (types : List ℕ) (fields : FieldArray)
    → NoStrings types
    → AreTyped types fields
    → (all_set fields ≡ none)
      ⊎ ((values : List ℕ) × (all_set fields ≡ some (map word values))
          × (length values ≡ length types)
          × AreWords values)
unfolding all_set
all_set-cases [] [] ns h = inr ([], refl, refl, tt)
all_set-cases [] (f ∷ fields) ns h = absurd h
all_set-cases (type ∷ types) [] ns h = absurd h
all_set-cases (type ∷ types) (none ∷ fields) ns h = inl refl
all_set-cases (type ∷ types) (some (chars cs) ∷ fields) ns h = cc (h.0, ns.0)
all_set-cases (type ∷ types) (some (word v) ∷ fields) ns h =
    elim (all_set-cases types fields ns.1 h.1) [
      | inl e ↦ inl (rw e refl)
      | inr (values, e, full, words) ↦ inr (v ∷ values, rw e refl, ap suc full, (h.0.1, words))
    ]
