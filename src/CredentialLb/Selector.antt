-- ===== src/CredentialLb/Selector.antt =====
-- pkg/credentiallb/selector.go: weighted choice over cumulative weights by binary search.
-- `int` weights are integers; the sums are taken not to exceed the range of Go's `int`.
pub mod Interval
use mathlib.Core.Option
use llm_supervisor_proxy.Support.Int.{ℤ, pos, pos_part, leb_ℤ}
use llm_supervisor_proxy.Support.{
  ℕ, zero, suc, ◌+◌, ◌-◌, ◌/◌, ◌<◌, ◌≡◌, Bool, true, false, String, List, [], ◌∷◌, Option, none,
  some, ltb, length, get_or, if◌then◌else◌,
}

pub record CredentialRef : Type 0 where
  pub credential_id : String
  pub weight : ℤ
  pub position : ℤ

pub record WeightedSelector : Type 0 where
  pub credential_ids : List String
  pub prefix_sum : List ℕ
  pub total_weight : ℕ

abbrev pub push_interval : String → ℕ → WeightedSelector → WeightedSelector
push_interval id total w = record w {
  credential_ids = id ∷ w.credential_ids;
  prefix_sum = total ∷ w.prefix_sum;
}

-- The loop over the refs. Behind the test the weight is positive, so its positive part is it.
unfoldable pub prefix_loop : List CredentialRef → ℕ → Option WeightedSelector
prefix_loop [] total = some (record { credential_ids = []; prefix_sum = []; total_weight = total })
prefix_loop (r ∷ refs) total =
    if leb_ℤ r.weight (pos 0)
    then none
    else Option.map (push_interval r.credential_id (total + pos_part r.weight))
        (prefix_loop refs (total + pos_part r.weight))

unfoldable pub new_weighted_selector : List CredentialRef → Option WeightedSelector
unfolding prefix_loop
new_weighted_selector [] = none
new_weighted_selector (r ∷ refs) = prefix_loop (r ∷ refs) 0

-- The loop of `pick`, on fuel.
unfoldable pub search_loop : ℕ → List ℕ → ℕ → ℕ → ℕ → ℕ
search_loop zero prefix_sum r lo hi = lo
search_loop (suc fuel) prefix_sum r lo hi = elim (ltb lo hi) [
  | false ↦ lo
  | true ↦ elim (ltb r (get_or prefix_sum ((lo + hi) / 2) 0)) [
    | true ↦ search_loop fuel prefix_sum r lo ((lo + hi) / 2)
    | false ↦ search_loop fuel prefix_sum r ((lo + hi) / 2 + 1) hi
  ]
]

-- The interval halves, so the length of the list is more than enough fuel.
unfoldable pub pick : WeightedSelector → ℕ → String
unfolding search_loop
pick w r =
    get_or w.credential_ids
      (search_loop (length w.prefix_sum) w.prefix_sum r 0 (length w.prefix_sum - 1)) ""
