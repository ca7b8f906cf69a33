-- ===== src/CredentialLb/Selector/Interval.antt =====
-- The binary search finds the interval of a draw, and so agrees with a walk over the weights.
use llm_supervisor_proxy.Support.Int.{pos, pos_part, ◌<ℤ◌}
use llm_supervisor_proxy.Support.{
  ℕ, zero, suc, ◌+◌, ◌/◌, ◌<◌, ◌≤◌, ◌≡◌, ◌∙◌, refl, String, List, [], ◌∷◌, ◌++◌, some, ltb, length,
  get_or, if◌then◌else◌, arith, Bool-cases, Option-cases, ltb→lt, inl, inr, ap, ◌-◌,
}
use llm_supervisor_proxy.CredentialLb.Selector.{
  CredentialRef, WeightedSelector, prefix_loop, new_weighted_selector, search_loop, pick,
}

abbrev pub AllPositive : List CredentialRef → Type 0
AllPositive [] = Unit
AllPositive (r ∷ refs) = (pos 0 <ℤ r.weight) × AllPositive refs

abbrev pub sums : ℕ → List CredentialRef → List ℕ
sums t [] = []
sums t (r ∷ refs) = (t + pos_part r.weight) ∷ sums (t + pos_part r.weight) refs

abbrev pub ids : List CredentialRef → List String
ids [] = []
ids (r ∷ refs) = r.credential_id ∷ ids refs

abbrev pub weight_from : ℕ → List CredentialRef → ℕ
weight_from t [] = t
weight_from t (r ∷ refs) = weight_from (t + pos_part r.weight) refs

-- The reference: walk along the refs until the sum of the weights passes the draw.
unfoldable pub walk : List CredentialRef → ℕ → ℕ → String
walk [] t r = ""
walk (x ∷ refs) t r =
    if ltb r (t + pos_part x.weight) then x.credential_id else walk refs (t + pos_part x.weight) r

abbrev pub selector_of : ℕ → List CredentialRef → WeightedSelector
selector_of t refs = record {
  credential_ids = ids refs;
  prefix_sum = sums t refs;
  total_weight = weight_from t refs;
}

pub prefix_loop_lem :
    (refs : List CredentialRef) (t : ℕ)
    → AllPositive refs
    → prefix_loop refs t ≡ some (selector_of t refs)
unfolding prefix_loop
prefix_loop_lem [] t p = refl
prefix_loop_lem (r ∷ refs) t p = ground (arith, prefix_loop_lem refs (t + pos_part r.weight) p.1)

pub prefix_loop-AllPositive :
    (refs : List CredentialRef) (t : ℕ) {w : WeightedSelector}
    → prefix_loop refs t ≡ some w
    → AllPositive refs
unfolding prefix_loop
prefix_loop-AllPositive [] t h = tt
prefix_loop-AllPositive (r ∷ refs) t h =
    elim (Option-cases (prefix_loop refs (t + pos_part r.weight))) [
      | inl e ↦ absurd (ground (arith, e))
      | inr (w, e) ↦ (ground (arith, e), prefix_loop-AllPositive refs (t + pos_part r.weight) e)
    ]

-- Index `i` is the first whose sum passes the draw.
abbrev IsFirst : List ℕ → ℕ → ℕ → Type 0
IsFirst ps r i = (r < get_or ps i 0) × ((j : ℕ) → j < i → get_or ps j 0 ≤ r)

sums-gt :
    (refs : List CredentialRef) (t i : ℕ)
    → AllPositive refs
    → i < length (sums t refs)
    → t < get_or (sums t refs) i 0
sums-gt [] t i p h = absurd (omega arith)
sums-gt (x ∷ refs) t zero p h = omega arith
sums-gt (x ∷ refs) t (suc i) p h =
    omega (arith, sums-gt refs (t + pos_part x.weight) i p.1 (omega arith))

sums_mono :
    (refs : List CredentialRef) (t i j : ℕ)
    → AllPositive refs
    → i ≤ j
    → j < length (sums t refs)
    → get_or (sums t refs) i 0 ≤ get_or (sums t refs) j 0
sums_mono [] t i j p h k = absurd (omega arith)
sums_mono (x ∷ refs) t zero zero p h k = omega arith
sums_mono (x ∷ refs) t zero (suc j) p h k =
    omega (arith, sums-gt refs (t + pos_part x.weight) j p.1 (omega arith))
sums_mono (x ∷ refs) t (suc i) zero p h k = absurd (omega arith)
sums_mono (x ∷ refs) t (suc i) (suc j) p h k =
    sums_mono refs (t + pos_part x.weight) i j p.1 (omega arith) (omega arith)

sums_last :
    (refs : List CredentialRef) (t : ℕ)
    → get_or (t ∷ sums t refs) (length (sums t refs)) 0 ≡ weight_from t refs
sums_last [] t = refl
sums_last (x ∷ refs) t = sums_last refs (t + pos_part x.weight)

walk_first :
    (refs : List CredentialRef) (t r i : ℕ)
    → IsFirst (sums t refs) r i
    → get_or (ids refs) i "" ≡ walk refs t r
unfolding walk
walk_first [] t r i f = refl
walk_first (x ∷ refs) t r zero f = ground arith
walk_first (x ∷ refs) t r (suc i) f = ground (
  arith,
  f.1 0 (omega arith),
  walk_first refs (t + pos_part x.weight) r i (f.0, λ j h. f.1 (suc j) (omega arith)),
)

module _ (ps : List ℕ) (r : ℕ)
    (mono : (i j : ℕ) → i ≤ j → j < length ps → get_or ps i 0 ≤ get_or ps j 0) where
  abbrev IsBelow : ℕ → Type 0
  IsBelow lo = (j : ℕ) → j < lo → get_or ps j 0 ≤ r

  search_loop_step :
      (fuel lo hi : ℕ)
      → search_loop (suc fuel) ps r lo hi ≡ (
          if ltb lo hi
          then (if ltb r (get_or ps ((lo + hi) / 2) 0)
              then search_loop fuel ps r lo ((lo + hi) / 2)
              else search_loop fuel ps r ((lo + hi) / 2 + 1) hi)
          else lo)
  unfolding search_loop
  search_loop_step fuel lo hi = ground arith

  search_loop-IsFirst :
      (fuel lo hi : ℕ)
      → hi < lo + fuel
      → lo ≤ hi
      → hi < length ps
      → r < get_or ps hi 0
      → IsBelow lo
      → IsFirst ps r (search_loop fuel ps r lo hi)
  search_loop-IsFirst zero lo hi f le len above below = absurd (omega arith)
  search_loop-IsFirst (suc fuel) lo hi f le len above below = elim (Bool-cases (ltb lo hi)) [
    | inr done ↦
        let e : lo ≡ hi = ground arith in
        rw (search_loop_step fuel lo hi, done) (rw (← e) at above, below)
    | inl more ↦
        let strict = ltb→lt lo hi more in
        elim (Bool-cases (ltb r (get_or ps ((lo + hi) / 2) 0))) [
          | inl left ↦
              rw (search_loop_step fuel lo hi, more, left)
                (search_loop-IsFirst fuel lo ((lo + hi) / 2) (omega arith) (omega arith)
                  (omega arith) (ltb→lt _ _ left) below)
          | inr right ↦
              rw (search_loop_step fuel lo hi, more, right)
                (search_loop-IsFirst fuel ((lo + hi) / 2 + 1) hi (omega arith) (omega arith) len
                  above (λ j h. ground (arith, mono j ((lo + hi) / 2))))
        ]
  ]

length-sums : (refs : List CredentialRef) (t : ℕ) → length (sums t refs) ≡ length refs
length-sums [] t = refl
length-sums (x ∷ refs) t = ap suc (length-sums refs (t + pos_part x.weight))

-- For positive weights and a draw below their sum the binary search gives what the walk gives.
pub pick-walk :
    (x : CredentialRef) (refs : List CredentialRef) (r : ℕ)
    → AllPositive (x ∷ refs)
    → r < weight_from 0 (x ∷ refs)
    → pick (selector_of 0 (x ∷ refs)) r ≡ walk (x ∷ refs) 0 r
unfolding pick
pick-walk x refs r p h =
    let t : ℕ = 0 + pos_part x.weight in
    let n : ℕ = length (sums t refs) in
    let e : suc n - 1 ≡ n = omega arith in
    rw e (
      walk_first (x ∷ refs) 0 r _ (
        search_loop-IsFirst (sums 0 (x ∷ refs)) r (λ i j. sums_mono (x ∷ refs) 0 i j p) (suc n) 0 n
          (omega arith) (omega arith) (omega arith) (rw (sums_last refs t) h)
          (λ j k. absurd (omega arith))))

pub weight_from-le : (refs : List CredentialRef) (t : ℕ) → t ≤ weight_from t refs
weight_from-le [] t = omega arith
weight_from-le (x ∷ refs) t = omega (arith, weight_from-le refs (t + pos_part x.weight))

weight_from-append :
    (before : List CredentialRef) (x : CredentialRef) (after : List CredentialRef) (t : ℕ)
    → weight_from t before + pos_part x.weight ≤ weight_from t (before ++ x ∷ after)
weight_from-append [] x after t = weight_from-le after (t + pos_part x.weight)
weight_from-append (y ∷ before) x after t =
    weight_from-append before x after (t + pos_part y.weight)

walk_interval :
    (before : List CredentialRef) (x : CredentialRef) (after : List CredentialRef) (t r : ℕ)
    → weight_from t before ≤ r
    → r < weight_from t before + pos_part x.weight
    → walk (before ++ x ∷ after) t r ≡ x.credential_id
unfolding walk
walk_interval [] x after t r lo hi = ground arith
walk_interval (y ∷ before) x after t r lo hi = ground (
  arith,
  weight_from-le before (t + pos_part y.weight),
  walk_interval before x after (t + pos_part y.weight) r lo hi,
)

pub new_weighted_selector-some :
    (refs : List CredentialRef) {w : WeightedSelector}
    → new_weighted_selector refs ≡ some w
    → AllPositive refs × (w ≡ selector_of 0 refs) × (0 < weight_from 0 refs)
unfolding new_weighted_selector
new_weighted_selector-some [] h = cc
new_weighted_selector-some (x ∷ refs) h =
    let p = prefix_loop-AllPositive (x ∷ refs) 0 h in
    (
      p,
      ground (arith, h, prefix_loop_lem (x ∷ refs) 0 p),
      omega (arith, weight_from-le refs (0 + pos_part x.weight)),
    )

pick-walk_some :
    (refs : List CredentialRef) (r : ℕ)
    → AllPositive refs
    → r < weight_from 0 refs
    → pick (selector_of 0 refs) r ≡ walk refs 0 r
pick-walk_some [] r p h = absurd (omega arith)
pick-walk_some (x ∷ refs) r p h = pick-walk x refs r p h

-- In a selector that was built, each credential answers exactly the draws of an interval as wide as
-- its weight, which starts at the sum of the weights before it: the draws from that sum on, and below
-- it plus the weight, all pick that credential.
pub pick_interval :
    (before : List CredentialRef) (x : CredentialRef) (after : List CredentialRef) (r : ℕ)
    {w : WeightedSelector}
    → new_weighted_selector (before ++ x ∷ after) ≡ some w
    → weight_from 0 before ≤ r
    → r < weight_from 0 before + pos_part x.weight
    → pick w r ≡ x.credential_id
pick_interval before x after r built lo hi =
    let (p, e, _) = new_weighted_selector-some (before ++ x ∷ after) built in
    rw e (
      pick-walk_some (before ++ x ∷ after) r p (omega (arith, weight_from-append before x after 0))
      ∙ walk_interval before x after 0 r lo hi)

pub new_weighted_selector_positive :
    (x : CredentialRef) (refs : List CredentialRef)
    → AllPositive (x ∷ refs)
    → new_weighted_selector (x ∷ refs) ≡ some (selector_of 0 (x ∷ refs))
unfolding new_weighted_selector
new_weighted_selector_positive x refs p = prefix_loop_lem (x ∷ refs) 0 p
