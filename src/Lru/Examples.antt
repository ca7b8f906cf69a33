-- ===== src/Lru/Examples.antt =====
-- A run of the bounded map, and its theorem at a concrete map.
use llm_supervisor_proxy.Support.Assoc.{lookup, delete}
use llm_supervisor_proxy.Support.{ℕ, ◌≡◌, ◌⊎◌, refl, none, some, [], ◌∷◌, dec_str}
use llm_supervisor_proxy.Lru.{
  Lru, new_lru, move_to_front, get, peek, drop_back, evict_loop, put_at, put, remove,
}
use llm_supervisor_proxy.Lru.Bounded.{IsBounded, new_lru-IsBounded, put-writes}

program : Unit {0}
unfolding dec_str lookup delete new_lru move_to_front get peek drop_back evict_loop put_at put
    remove
program = tt

abbrev one : Lru ℕ
one = new_lru 1

abbrev two : Lru ℕ
two = new_lru 2

-- Reading the older entry saves it from the eviction; looking at it does not.
recency_runs :
    ((put "c" 3 (get "a" (put "b" 2 (put "a" 1 two))).1).items ≡ ("c", 3) ∷ ("a", 1) ∷ [])
    × ((put "c" 3 (put "b" 2 (put "a" 1 two))).items ≡ ("c", 3) ∷ ("b", 2) ∷ [])
    × ((remove "b" (put "b" 2 (put "a" 1 two))).items ≡ ("a", 1) ∷ [])
unfolding program
recency_runs = (refl, refl, refl)

put-writes_example :
    IsBounded (put "b" 2 one)
    × (peek "b" (put "b" 2 one) ≡ some 2)
    × ((peek "a" (put "b" 2 one) ≡ peek "a" one) ⊎ (peek "a" (put "b" 2 one) ≡ none))
unfolding program
put-writes_example = put-writes "a" "b" 2 one (new_lru-IsBounded 1) refl
