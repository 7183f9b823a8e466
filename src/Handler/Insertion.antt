-- ===== src/Handler/Insertion.antt =====
-- A query of insertion on a stored tree without string attributes.
use llp_base.Common.{
  ==_iff, length-map, ℕ, ◌+◌, ◌^◌, ◌<◌, ◌≡◌, ◌≢◌, ◌⊎◌, inl, inr, refl, sym, ap, ◌∙◌, none,
  Bool-cases, List, [], ◌∷◌, ◌++◌, map, length, replicate, ◌==◌,
}
use mathlib.Core.Path.{subst}
use llp_base.OsFile.{World, Run, ok, fault, pure, ◌>>=◌}
use llp_base.Schema.Sizes.{real_node_size, slots}
use llp_base.BaseApi.{attribute_type, attribute_name_of}
use llp_base.Message.{Query, ValueSetting}
use llp_base.Public.{
  ErrCode, ok_code, count_error, pattern_error, bool_code, float_code, int_code, str_code,
  fill_fields, add_filled, all_set, storage_insert_node, FieldArray,
}
use llp_base.Public.Terminated.{AreTerminated}
use llp_base.Public.Typed.{
  AreDecoded, AreTyped, AreTyped-unset, fill_fields-AreTyped, all_set-cases,
}
use llp_base.Store.Slots.{NoStrings}
use llp_base.Store.Lookup.{behind_schema, read_tree_schema-IsStore}
use llp_base.DataFile.Bytes.{schema_bytes}
use llp_base.Store.Moved.{Holds-moved}
use llp_base.Store.Tree.{TreeNode, Holds, add_node-Holds, template_size-length}
use llp_base.Handler.Query.{handle_query, run_command, insert_text, parent_of}

-- What an insertion comes to: a node of the given parent is added; or there is an error, and the file
-- is as it was; or a value that was never set is used, and `unset` says why.
abbrev pub Inserted :
    {A : Type 0} → World → List ℕ → List TreeNode → ℕ → (ErrCode → A) → Type 0 → Run A → Type 0
Inserted w types nodes parent answer unset run =
    ((values : List ℕ) × (w' : World) × (run ≡ ok (answer ok_code) w')
      × Holds w' types (nodes ++ record { parent = parent; values = values } ∷ []))
    ⊎ ((code : ErrCode) × (p : ℕ) × (code ≢ ok_code)
        × (run ≡ ok (answer code) (record w { pos = p })))
    ⊎ (unset × (run ≡ fault))

-- There are as many settings as attributes, and every one of them names an attribute and fits it, but
-- one attribute is not set, since two of them name the same one.
abbrev pub IsUnset : (ℕ → ℕ) → List ℕ → List (List ℕ) → List ValueSetting → World → Type 0
IsUnset to_double types names settings w =
    (fields : FieldArray) × (fill_fields to_double types names settings
        (replicate (length types) none) w
      ≡ ok (fields, ok_code) w)
    × (all_set fields ≡ none)
    × (length settings ≡ length types)

module _ {w : World} {types : List ℕ} {nodes : List TreeNode} (h : Holds w types nodes)
    (fresh : List ℕ) (parent : ℕ) (block : length fresh ≡ real_node_size (length types))
    (parent_word : parent < 2 ^ 64) (room : length nodes + 1 < slots (length types)) where
  -- All the settings were taken.
  filled-Inserted :
      (fields : FieldArray) (count : ℕ)
      → AreTyped types fields
      → Inserted w types nodes parent
          (λ code. code)
          ((all_set fields ≡ none) × (count ≡ length types))
          (add_filled fresh parent ok_code fields count (length types) w)
  unfolding add_filled
  filled-Inserted fields count typed = elim (Bool-cases (count == length types)) [
    | inr e ↦ inr (inl (count_error, w.pos, (λ c. cc c), rw e refl))
    | inl e ↦ elim (all_set-cases types fields (subst NoStrings h.typed h.no_strings) typed) [
      | inl none_set ↦
          inr (inr ((none_set, (==_iff count (length types)).0 e), rw (e, none_set) refl))
      | inr (values, all, full, words) ↦
          let (w', added, h') =
            add_node-Holds h (record { parent = parent; values = values }) fresh
              (record { full = full; block_size = block; parent_word = parent_word; words = words })
              room in
          inl (values, w', rw (e, all, added) refl, h')
    ]
  ]

  add_filled-Inserted :
      (code : ErrCode) (fields : FieldArray) (count : ℕ)
      → AreTyped types fields
      → Inserted w types nodes parent
          (λ code. code)
          ((code ≡ ok_code) × (all_set fields ≡ none) × (count ≡ length types))
          (add_filled fresh parent code fields count (length types) w)
  unfolding add_filled
  add_filled-Inserted ok_code fields count typed = elim (filled-Inserted fields count typed) [
    | inl r ↦ inl r
    | inr (inl r) ↦ inr (inl r)
    | inr (inr (u, e)) ↦ inr (inr ((refl, u.0, u.1), e))
  ]
  add_filled-Inserted pattern_error fields count typed =
      inr (inl (pattern_error, w.pos, (λ c. cc c), refl))
  add_filled-Inserted bool_code fields count typed = inr (inl (bool_code, w.pos, (λ c. cc c), refl))
  add_filled-Inserted float_code fields count typed =
      inr (inl (float_code, w.pos, (λ c. cc c), refl))
  add_filled-Inserted int_code fields count typed = inr (inl (int_code, w.pos, (λ c. cc c), refl))
  add_filled-Inserted str_code fields count typed = inr (inl (str_code, w.pos, (λ c. cc c), refl))
  add_filled-Inserted count_error fields count typed =
      inr (inl (count_error, w.pos, (λ c. cc c), refl))

  module _ (to_double : ℕ → ℕ) (doubles : (n : ℕ) → to_double n < 2 ^ 64) (names : List (List ℕ))
      (as_many : length types ≡ length names) (ends : AreTerminated names)
      (settings : List ValueSetting) (decoded : AreDecoded settings) where
    -- `storageInsertNodeNew` on a stored tree without string attributes, where a slot is left: it adds
    -- a node, or reports an error and changes nothing, or two settings name the same attribute.
    pub storage_insert_node-Inserted :
        Inserted w types nodes parent
          (λ code. code)
          (IsUnset to_double types names settings w)
          (storage_insert_node to_double fresh settings parent (length types) types names w)
    unfolding storage_insert_node
    storage_insert_node-Inserted =
        let (fields, code, filled, typed) =
          fill_fields-AreTyped to_double doubles types names settings _ w as_many ends decoded
            (AreTyped-unset types) in
        elim (add_filled-Inserted code fields (length settings) typed) [
          | inl (values, w', e, h') ↦ inl (values, w', rw (filled, e) refl, h')
          | inr (inl (c, p, bad, e)) ↦ inr (inl (c, p, bad, rw (filled, e) refl))
          | inr (inr (u, e)) ↦ inr (
              inr
                ((fields, filled ∙ ap (λ c. ok (fields, c) w) u.0, u.1, u.2), rw (filled, e) refl))
        ]

-- The names in the schema.
abbrev pub stored_names :
    {w : World} {types : List ℕ} {nodes : List TreeNode} → Holds w types nodes → List (List ℕ)
stored_names h = map attribute_name_of h.tree.nodes_template

module _ {w : World} {types : List ℕ} {nodes : List TreeNode} (h : Holds w types nodes)
    (to_double : ℕ → ℕ) (show_double : ℕ → List ℕ) (fuel : ℕ) (at_value fresh : List ℕ)
    (query : Query) (insertion : query.command ≡ 2) where
  -- The query reads the schema, and then inserts the settings.
  handle_query-insertion :
      handle_query to_double show_double fuel at_value fresh query w
      ≡ (storage_insert_node to_double fresh query.settings_list
              (parent_of query.filters_list)
              (length types)
              types
              (stored_names h)
            >>= λ code. pure (insert_text code))
          (behind_schema w h.tree)
  unfolding handle_query run_command
  handle_query-insertion =
      rw (read_tree_schema-IsStore w h.store, insertion, template_size-length h, h.typed) refl

  pub handle_query-Inserted :
      ((n : ℕ) → to_double n < 2 ^ 64)
      → AreTerminated (stored_names h)
      → AreDecoded query.settings_list
      → length fresh ≡ real_node_size (length types)
      → parent_of query.filters_list < 2 ^ 64
      → length nodes + 1 < slots (length types)
      → Inserted w types nodes
          (parent_of query.filters_list)
          insert_text
          (IsUnset to_double types (stored_names h) query.settings_list (behind_schema w h.tree))
          (handle_query to_double show_double fuel at_value fresh query w)
  handle_query-Inserted doubles ends decoded block parent_word room =
      let as_many : length types ≡ length (stored_names h) =
        ap length (sym h.typed)
        ∙ length-map attribute_type h.tree.nodes_template
        ∙ sym (length-map attribute_name_of h.tree.nodes_template) in
      elim (storage_insert_node-Inserted (Holds-moved (length (schema_bytes h.tree)) h) fresh
        (parent_of query.filters_list) block parent_word room to_double doubles (stored_names h)
        as_many ends query.settings_list decoded) [
          | inl (values, w', e, h') ↦ inl (values, w', handle_query-insertion ∙ rw e refl, h')
          | inr (inl (c, p, bad, e)) ↦ inr (inl (c, p, bad, handle_query-insertion ∙ rw e refl))
          | inr (inr (u, e)) ↦ inr (inr (u, handle_query-insertion ∙ rw e refl))
        ]
