-- ===== src/Server/Chunks.antt =====
-- The answer to a query arrives whole.
use llp_base.Common.{
  ℕ, zero, suc, ◌≤◌, ◌<◌, ◌≡◌, refl, ap, List, [], ◌∷◌, ◌++◌, length, take, drop, ltb, some,
  Bool-cases, inl, inr, arith, length-drop, length-take,
}
use llp_base.Message.{Response}
use llp_base.Server.{send_response, receive_response}

take-append-drop : (n : ℕ) (xs : List ℕ) → take n xs ++ drop n xs ≡ xs
take-append-drop zero xs = refl
take-append-drop (suc n) [] = refl
take-append-drop (suc n) (x ∷ xs) = ap (λ t. x ∷ t) (take-append-drop n xs)

-- Every response fits its buffer with the zero byte, and all but the last are marked as not last.
abbrev pub AreChunks : List Response → Type 0
AreChunks [] = ⊥
AreChunks (r ∷ []) = (length r.r_string ≤ 1023) × (r.last ≡ 1)
AreChunks (r ∷ q ∷ rs) = (length r.r_string ≤ 1023) × (r.last ≡ 0) × AreChunks (q ∷ rs)

AreChunks-cons :
    (r : Response) (rs : List Response)
    → length r.r_string ≤ 1023
    → r.last ≡ 0
    → AreChunks rs
    → AreChunks (r ∷ rs)
AreChunks-cons r [] a b h = absurd h
AreChunks-cons r (q ∷ rs) a b h = (a, b, h)

pub receive-send :
    (fuel : ℕ) (res : List ℕ)
    → length res < fuel
    → (rs : List Response) × (send_response fuel res ≡ some rs)
      × AreChunks rs
      × (receive_response rs ≡ some res)
unfolding send_response receive_response
receive-send zero res h = absurd (omega arith)
receive-send (suc fuel) res h = elim (Bool-cases (ltb 1023 (length res))) [
  | inl long ↦
      let (rs, sent, chunks, printed) =
        receive-send fuel (drop 1023 res) (grind (arith, length-drop {0} 1023 res)) in
      let r : Response = record { r_string = take 1023 res; last = 0 } in
      (
        r ∷ rs,
        rw (long, sent),
        AreChunks-cons r rs (omega (arith, length-take {0} 1023 res)) refl chunks,
        rw printed (ap some (take-append-drop 1023 res)),
      )
  | inr short ↦ (record { r_string = res; last = 1 } ∷ [], rw short, (grind arith, refl), refl)
]
