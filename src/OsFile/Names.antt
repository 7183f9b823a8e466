-- ===== src/OsFile/Names.antt =====
-- Files by name: what opening and deleting one of them does to it and to the others.
use llp_base.Common.{
  ◌⊎◌, ℕ, ◌≡◌, ◌≢◌, refl, sym, ap, ◌∙◌, Option, none, some, true, false, Bool-cases, inl, inr, List,
  [], ◌∷◌, ◌==◌, ==_iff, ==-refl, ◌&&◌, if◌then◌else◌,
}
use mathlib.Core.Path.{subst}
use llp_base.OsFile.Disk.{
  open_forse, open_again, FileTable, same_name, contents_of, delete_file, existing, emptied,
  appended, open_or_create_file, OpenStatus, open_success, open_fail,
}

same_name_refl : (name : List ℕ) → same_name name name ≡ true
unfolding same_name
same_name_refl [] = refl
same_name_refl (a ∷ name) = rw (==-refl a) (same_name_refl name)

same_name_sound : (name other : List ℕ) → same_name name other ≡ true → name ≡ other
unfolding same_name
same_name_sound [] [] e = refl
same_name_sound [] (b ∷ other) e = cc e
same_name_sound (a ∷ name) [] e = cc e
same_name_sound (a ∷ name) (b ∷ other) e = elim (Bool-cases (a == b)) [
  | inl same ↦ cc (
    (==_iff a b).0 same,
    same_name_sound name other (ap (λ c. c && same_name name other) (sym same) ∙ e),
  )
  | inr apart ↦ cc (ap (λ c. c && same_name name other) (sym apart) ∙ e)
]

-- After a file is deleted there is none of its name, and the others are as they were.
contents_of-delete_file :
    (name other : List ℕ) (disk : FileTable)
    → contents_of other (delete_file name disk).1
      ≡ (if same_name name other then none else contents_of other disk)
unfolding contents_of delete_file
contents_of-delete_file name other [] = elim (Bool-cases (same_name name other)) [
  | inl e ↦ rw e refl
  | inr e ↦ rw e refl
]
contents_of-delete_file name other ((first, bytes) ∷ disk) =
    elim (Bool-cases (same_name name first)) [
      | inl e ↦ elim (Bool-cases (same_name other first)) [
        | inl k ↦
            let same : same_name name other ≡ true =
              subst (λ a. same_name name a ≡ true) (sym (same_name_sound other first k)) e in
            rw (e, k, same) (contents_of-delete_file name other disk ∙ rw same refl)
        | inr k ↦ rw (e, k) (contents_of-delete_file name other disk)
      ]
      | inr e ↦ elim (Bool-cases (same_name other first)) [
        | inl k ↦
            let apart : same_name name other ≡ false =
              subst (λ a. same_name name a ≡ false) (sym (same_name_sound other first k)) e in
            rw (e, k, apart) refl
        | inr k ↦ rw (e, k) (contents_of-delete_file name other disk)
      ]
    ]

same_name_ne : (name other : List ℕ) → name ≢ other → same_name name other ≡ false
same_name_ne name other ne = elim (Bool-cases (same_name name other)) [
  | inl e ↦ absurd (ne (same_name_sound name other e))
  | inr e ↦ e
]

-- What opening an existing file finds.
abbrev pub found : List ℕ → FileTable → Option (List ℕ)
found name disk = (open_or_create_file existing name disk).1

found-contents_of : (name : List ℕ) (disk : FileTable) → found name disk ≡ contents_of name disk
unfolding open_or_create_file
found-contents_of name disk = opened (contents_of name disk)
  where
    opened :
        (o : Option (List ℕ))
        → (elim o as (λ _. OpenStatus × Option (List ℕ) × FileTable) [
          | none ↦ (open_fail, none, disk)
          | some bytes ↦ (open_success, some bytes, disk)
        ]).1
          ≡ o
    opened none = refl
    opened (some bytes) = refl

pub open_or_create_file-found :
    (name other : List ℕ) (disk : FileTable)
    → name ≢ other
    → (found name (open_or_create_file emptied name disk).2 ≡ some [])
      × (found other (open_or_create_file emptied name disk).2 ≡ found other disk)
      × (found name (delete_file name disk).1 ≡ none)
      × (found other (delete_file name disk).1 ≡ found other disk)
unfolding open_or_create_file contents_of
open_or_create_file-found name other disk ne =
    let self = same_name_refl name in
    let disk' : FileTable = (open_or_create_file emptied name disk).2 in
    let apart : same_name name other ≡ false = same_name_ne name other ne in
    let apart' : same_name other name ≡ false = same_name_ne other name (λ e. ne (sym e)) in
    let deleted : found other (delete_file name disk).1 ≡ found other disk =
      found-contents_of other (delete_file name disk).1
      ∙ contents_of-delete_file name other disk
      ∙ rw apart (sym (found-contents_of other disk)) in
    (
      found-contents_of name disk' ∙ rw self refl,
      found-contents_of other disk'
          ∙ rw apart' (
              contents_of-delete_file name other disk
              ∙ rw apart (sym (found-contents_of other disk))),
      found-contents_of name (delete_file name disk).1
          ∙ contents_of-delete_file name name disk
          ∙ rw self refl,
      deleted,
    )

open_existing_none :
    (name : List ℕ) (disk : FileTable)
    → contents_of name disk ≡ none
    → open_or_create_file existing name disk ≡ (open_fail, none, disk)
unfolding open_or_create_file
open_existing_none name disk e = rw (open_or_create_file, e) refl

open_existing_some :
    (name bytes : List ℕ) (disk : FileTable)
    → contents_of name disk ≡ some bytes
    → open_or_create_file existing name disk ≡ (open_success, some bytes, disk)
unfolding open_or_create_file
open_existing_some name bytes disk e = rw (open_or_create_file, e) refl

open_appended_none :
    (name : List ℕ) (disk : FileTable)
    → contents_of name disk ≡ none
    → open_or_create_file appended name disk ≡ (open_success, some [], (name, []) ∷ disk)
unfolding open_or_create_file
open_appended_none name disk e = rw (open_or_create_file, e) refl

pub open_forse-found :
    (name : List ℕ) (disk : FileTable)
    → (bytes : List ℕ) × (disk' : FileTable) × (open_forse name disk
        ≡ (open_success, some bytes, disk'))
      × (found name disk' ≡ some bytes)
      × ((found name disk ≡ some bytes) ⊎ ((found name disk ≡ none) × (bytes ≡ [])))
unfolding open_forse open_again contents_of
open_forse-found name disk = elim (Option-cases (contents_of name disk)) [
  | inl e ↦ (
    [],
    (name, []) ∷ disk,
    ap (open_again name) (open_existing_none name disk e) ∙ open_appended_none name disk e,
    found-contents_of name ((name, []) ∷ disk) ∙ rw (same_name_refl name) refl,
    inr (found-contents_of name disk ∙ e, refl),
  )
  | inr (bytes, e) ↦ (
    bytes,
    disk,
    ap (open_again name) (open_existing_some name bytes disk e),
    found-contents_of name disk ∙ e,
    inl (found-contents_of name disk ∙ e),
  )
]
  where
    Option-cases : {A : Type 0} (o : Option A) → (o ≡ none) ⊎ ((a : A) × (o ≡ some a))
    Option-cases none = inl refl
    Option-cases (some a) = inr (a, refl)
