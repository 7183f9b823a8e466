-- ===== src/Public/Matching.antt =====
-- A node passes the filters when each of them has a comparator that holds.
use llp_base.Common.{
  ℕ, suc, ◌+◌, ◌%◌, ◌<◌, ◌≡◌, refl, sym, ap, ◌∙◌, some, Bool, true, false, not, ◌&&◌, ◌||◌, List,
  [], ◌∷◌, length, ◌==◌, if◌then◌else◌, arith, Bool-cases, inl, inr,
}
use llp_base.OsFile.{World, ok}
use llp_base.Schema.{KeyNode}
use llp_base.Message.{Comparator, Filter}
use llp_base.Public.Filter.{comparator_fails, count_valid, passes_filters}

module _ (holds : Comparator → Bool) where
  abbrev pub any_holds : List Comparator → Bool
  any_holds [] = false
  any_holds (c ∷ cs) = holds c || any_holds cs

  abbrev pub all_hold : List Filter → Bool
  all_hold [] = true
  all_hold (f ∷ fs) = any_holds f.comp_list && all_hold fs

  abbrev holding : List Comparator → ℕ
  holding [] = 0
  holding (c ∷ cs) = (if holds c then 1 else 0) + holding cs

  holding-any : (cs : List Comparator) → not (holding cs == 0) ≡ any_holds cs
  holding-any [] = refl
  holding-any (c ∷ cs) = ground (arith, holding-any cs)

  module _ (fuel : ℕ) (types : List ℕ) (size : ℕ) (names : List (List ℕ)) (node : KeyNode)
      (w : World) where
    -- Each comparator can be evaluated on the node, without a change to the stream, and `holds` says
    -- whether it holds.
    abbrev pub Evaluated : List Comparator → Type 0
    Evaluated [] = Unit {0}
    Evaluated (c ∷ cs) =
        (comparator_fails fuel types size names node c w ≡ ok (some (not (holds c))) w)
        × Evaluated cs

    -- `valid` is a byte, so a filter has at most 255 comparators.
    abbrev pub AllEvaluated : List Filter → Type 0
    AllEvaluated [] = Unit {0}
    AllEvaluated (f ∷ fs) = (length f.comp_list < 256) × Evaluated f.comp_list × AllEvaluated fs

    count_valid-holding :
        (cs : List Comparator) (k : ℕ)
        → length cs + k < 256
        → Evaluated cs
        → count_valid fuel types size names node cs (length cs + k) w ≡ ok (some (holding cs + k)) w
    unfolding count_valid
    count_valid-holding [] k h e = refl
    count_valid-holding (c ∷ cs) k h e = elim (Bool-cases (holds c)) [
      | inl yes_holds ↦
          let n : suc (length cs) + k ≡ length cs + (k + 1) = omega arith in
          let m : holding cs + (k + 1) ≡ 1 + holding cs + k = omega arith in
          rw (e.0, yes_holds, n, count_valid-holding cs (k + 1) (omega arith) e.1, m)
      | inr not_holds ↦
          let n : (suc (length cs) + k + 255) % 256 ≡ length cs + k = omega arith in
          let m : holding cs + k ≡ 0 + holding cs + k = omega arith in
          rw (e.0, not_holds, n, count_valid-holding cs k (omega arith) e.1, m)
    ]

    count_valid-any :
        (cs : List Comparator)
        → length cs < 256
        → Evaluated cs
        → count_valid fuel types size names node cs (length cs % 256) w ≡ ok (some (holding cs)) w
    count_valid-any cs h e =
        let n : length cs % 256 ≡ length cs + 0 = omega arith in
        let m : holding cs + 0 ≡ holding cs = omega arith in
        rw (n, count_valid-holding cs 0 (omega arith) e, m)

    -- Where each comparator is evaluated without a fault and without moving the stream, and no filter
    -- has 256 comparators or more, a node passes a list of one or more filters if and only if of each
    -- filter some comparator holds.
    pub passes_filters-all_hold :
        (f : Filter) (fs : List Filter)
        → AllEvaluated (f ∷ fs)
        → passes_filters fuel types size names node (f ∷ fs) w ≡ ok (some (all_hold (f ∷ fs))) w
    unfolding passes_filters
    passes_filters-all_hold f [] h =
        rw (count_valid-any f.comp_list h.0 h.1)
          (ap (λ b. ok (some b) w) (ground (arith, holding-any f.comp_list)))
    passes_filters-all_hold f (g ∷ fs) h = elim (Bool-cases (holding f.comp_list == 0)) [
      | inl none_holds ↦
          let any : any_holds f.comp_list ≡ false =
            sym (holding-any f.comp_list) ∙ ap not none_holds in
          rw (count_valid-any f.comp_list h.0 h.1, none_holds, any)
      | inr some_hold ↦
          let any : any_holds f.comp_list ≡ true =
            sym (holding-any f.comp_list) ∙ ap not some_hold in
          rw (count_valid-any f.comp_list h.0 h.1, some_hold, any)
            (passes_filters-all_hold g fs h.2)
    ]
