-- ===== src/Loops/Cycle/Occurrences.antt =====
-- pkg/loopdetection/strategy_cycle.go, the count of occurrences from one start.
use mathlib.Core.List.{append_assoc}
use native.Mathlib.Nat.{mul-suc, mul-zero}
use llm_supervisor_proxy.Support.{
  ℕ, zero, suc, ◌+◌, ◌*◌, ◌<◌, ◌≤◌, ◌≡◌, refl, sym, ap, ◌∙◌, true, String, List, [], ◌∷◌, ◌++◌, leb,
  str_eq, str_eq→eq, str_eq_refl, length, length-append, take, drop, take-drop, arith, Bool-cases,
  inl, inr,
}
use llm_supervisor_proxy.Loops.Cycle.{slice_equal, count_loop}

-- A sequence, `k` times in a row.
unfoldable pub repeated : ℕ → List String → List String
repeated zero p = []
repeated (suc k) p = p ++ repeated k p

pub length-repeated : (k : ℕ) (p : List String) → length (repeated k p) ≡ length p * k
unfolding repeated
length-repeated zero p = sym (mul-zero (length p))
length-repeated (suc k) p =
    omega (arith, length-append p (repeated k p), length-repeated k p, mul-suc (length p) k)

slice_equal→eq : (xs ys : List String) → slice_equal xs ys ≡ true → xs ≡ ys
unfolding slice_equal
slice_equal→eq [] [] h = refl
slice_equal→eq [] (y ∷ ys) h = absurd (ground (arith, h))
slice_equal→eq (x ∷ xs) [] h = absurd (ground (arith, h))
slice_equal→eq (x ∷ xs) (y ∷ ys) h = elim (Bool-cases (str_eq x y)) [
  | inl e ↦ ground (arith, slice_equal→eq xs ys, str_eq→eq x y e, h)
  | inr e ↦ absurd (ground (arith, h, e))
]

slice_equal_refl : (xs : List String) → slice_equal xs xs ≡ true
unfolding slice_equal
slice_equal_refl [] = refl
slice_equal_refl (x ∷ xs) = ground (arith, slice_equal_refl xs, str_eq_refl x)

-- Each counted occurrence is one.
pub count_loop-repeated :
    (fuel pattern_len k : ℕ) (p rest : List String)
    → k ≤ count_loop fuel pattern_len p rest
    → (after : List String) × (rest ≡ repeated k p ++ after)
unfolding count_loop repeated
count_loop-repeated fuel pattern_len zero p rest h = (rest, refl)
count_loop-repeated zero pattern_len (suc k) p rest h = absurd (omega (arith, h))
count_loop-repeated (suc fuel) pattern_len (suc k) p rest h =
    let (after, e) =
      count_loop-repeated fuel pattern_len k p (drop pattern_len rest) (ground (arith, h)) in
    (
      after,
      sym (take-drop pattern_len rest)
          ∙ ap (λ l. l ++ drop pattern_len rest)
              (slice_equal→eq (take pattern_len rest) p (ground (arith, h)))
          ∙ ap (λ l. p ++ l) e
          ∙ sym (append_assoc p (repeated k p) after),
    )

pub take-front : (xs ys : List String) → take (length xs) (xs ++ ys) ≡ xs
take-front [] ys = refl
take-front (x ∷ xs) ys = ap (◌∷◌ x) (take-front xs ys)

pub drop-front : (xs ys : List String) → drop (length xs) (xs ++ ys) ≡ ys
drop-front [] ys = refl
drop-front (x ∷ xs) ys = drop-front xs ys

-- Every occurrence is counted, if the fuel is at least the number of keys left.
pub count_loop-all :
    (fuel k : ℕ) (p after : List String)
    → 0 < length p
    → length (repeated k p ++ after) ≤ fuel
    → k ≤ count_loop fuel (length p) p (repeated k p ++ after)
unfolding count_loop repeated
count_loop-all fuel zero p after b h = omega arith
count_loop-all zero (suc k) p after b h =
    absurd
      (omega (arith, b, h, length-append (p ++ repeated k p) after, length-append p (repeated k p)))
count_loop-all (suc fuel) (suc k) p after b h =
    rw
      (
        append_assoc p (repeated k p) after,
        take-front p (repeated k p ++ after),
        drop-front p (repeated k p ++ after),
        slice_equal_refl p,
        fits,
      )
      (omega (arith, count_loop-all fuel k p after b shorter))
  where
    whole : length (repeated (suc k) p ++ after) ≡ length p + length (repeated k p ++ after)
    whole =
        ap length (append_assoc p (repeated k p) after) ∙ length-append p (repeated k p ++ after)

    fits : leb (length p) (length (p ++ (repeated k p ++ after))) ≡ true
    fits = ground (arith, length-append p (repeated k p ++ after))

    shorter : length (repeated k p ++ after) ≤ fuel
    shorter = omega (arith, h, b, whole)

-- A repeated sequence starts with itself.
pub take-repeated :
    (k : ℕ) (p after : List String) → 0 < k → take (length p) (repeated k p ++ after) ≡ p
unfolding repeated
take-repeated zero p after h = absurd (omega (arith, h))
take-repeated (suc k) p after h =
    rw (append_assoc p (repeated k p) after) (take-front p (repeated k p ++ after))
