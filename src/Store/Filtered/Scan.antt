-- ===== src/Store/Filtered/Scan.antt =====
-- The loop of `storageFindNodeByFilters` does what `scan` does with the test of the filters.
use llp_base.Common.{
  ℕ, zero, suc, ◌+◌, ◌≡◌, ap, Option, none, some, Bool, Bool-cases, inl, inr, List, ◌==◌, get_elem?,
}
use llp_base.OsFile.{World, Run, ok, fault, out_of_fuel, Io, and_then, ◌>>=◌, pure, seek_set}
use llp_base.DataFile.{defined, read_node}
use llp_base.Schema.{TreeSchema, KeyNode}
use llp_base.Inner.{ResultSet, scan}
use llp_base.Message.{Filter}
use llp_base.Public.{passes_filters, scan_filters}

-- When the one run returns a value, the other returns it too, as one that is there.
record Gives {A : Type 0} (r : Run A) (q : Run (Option A)) : Type 0 where
  pub gives : (a : A) (w : World) → r ≡ ok a w → q ≡ ok (some a) w

module _ {A B : Type 0} where
  then-Gives :
      (m : Run B) {k : B → Io A} {j : B → Io (Option A)}
      → ((b : B) (w : World) → Gives (k b w) (j b w))
      → Gives (and_then m k) (and_then m j)
  then-Gives (ok b w) h = h b w
  then-Gives fault h = record { gives = λ a w e. absurd (cc e) }
  then-Gives out_of_fuel h = record { gives = λ a w e. absurd (cc e) }

  nested-Gives :
      {C : Type 0} (m : Run B) (f : B → Io C) (k : C → Io A) {j : B → Io (Option A)}
      → ((b : B) (w : World) → Gives (and_then (f b w) k) (j b w))
      → Gives (and_then (and_then m f) k) (and_then m j)
  nested-Gives (ok b w) f k h = h b w
  nested-Gives fault f k h = record { gives = λ a w e. absurd (cc e) }
  nested-Gives out_of_fuel f k h = record { gives = λ a w e. absurd (cc e) }

-- The test may find that a key names no attribute; then the other run has a fault.
tested-Gives :
    {A C : Type 0} (m : Run (Option Bool)) (f : Bool → Io C) (k : C → Io A)
    {j : Bool → Io (Option A)}
    → ((b : Bool) (w : World) → Gives (and_then (f b w) k) (j b w))
    → Gives
        (and_then (and_then (and_then m (λ o. defined o)) f) k)
        (and_then m (λ o. elim o as (λ _. Io (Option A)) [ none ↦ pure none | some b ↦ j b ]))
tested-Gives (ok (some b) w) f k h = h b w
tested-Gives (ok none w) f k h = record { gives = λ a w e. absurd (cc e) }
tested-Gives fault f k h = record { gives = λ a w e. absurd (cc e) }
tested-Gives out_of_fuel f k h = record { gives = λ a w e. absurd (cc e) }

module _ (fuel : ℕ) (types : List ℕ) (names : List (List ℕ)) (filters : List Filter)
    (s : TreeSchema) where
  abbrev pub passing : KeyNode → Io Bool
  passing node =
      passes_filters fuel types s.meta.template_size names node filters >>= λ o. defined o

  scan-Gives :
      (left i : ℕ) (set : ResultSet) (w : World)
      → Gives
          (scan passing s left i set w)
          (scan_filters fuel types s.meta.template_size names s filters left i set w)
  unfolding scan scan_filters
  scan-Gives zero i set w = record { gives = λ a v e. ap (λ r. and_then r (λ b. ok (some b))) e }
  scan-Gives (suc left) i set w = then-Gives (defined (get_elem? s.root i) w) (λ offset w.
      elim (Bool-cases (offset == 0)) [
        | inl e ↦ rw e (scan-Gives left (i + 1) set w)
        | inr e ↦ rw e (
            nested-Gives (seek_set offset w) _ _ (λ _ w.
              nested-Gives (read_node s.meta.template_size w) _ _ (λ p w.
                tested-Gives (passes_filters fuel types s.meta.template_size names p.1 filters w) _
                  _ (λ b w. scan-Gives left (i + 1) _ w))))
      ])

  -- A scan that returns a result set, in terms of the function of the program.
  pub scan_filters-scan :
      (left i : ℕ) (set rs : ResultSet) (w w' : World)
      → scan passing s left i set w ≡ ok rs w'
      → scan_filters fuel types s.meta.template_size names s filters left i set w ≡ ok (some rs) w'
  scan_filters-scan left i set rs w w' e = (scan-Gives left i set w).gives rs w' e
