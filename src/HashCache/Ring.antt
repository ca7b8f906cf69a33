-- ===== src/HashCache/Ring.antt =====
-- The ring buffer as a bounded queue of hashes, oldest first, as long as nothing is removed from it.
use mathlib.Core.List.{append-nil, tail}
use llm_supervisor_proxy.Support.{
  ℕ, zero, suc, ◌<◌, ◌≤◌, ◌≡◌, refl, sym, ap, ◌∙◌, Bool, true, false, ◌||◌, String, List, [], ◌∷◌,
  ◌++◌, ltb, str_eq, length, length-append, take, drop, take_all, if◌then◌else◌, arith, Bool-cases,
  inl, inr,
}
use llm_supervisor_proxy.HashCache.{HashCache, contains_loop, contains}

-- Until the buffer is full its entries stand in front, and the head is behind them.
pub record IsRing (c : HashCache) : Type 0 where
  pub sized : length c.hashes ≡ c.size
  pub positive : 0 < c.size
  pub head_in : c.head < c.size
  pub count_in : c.count ≤ c.size
  pub in_front : c.count < c.size → c.head ≡ c.count

-- The hashes in the buffer, oldest first.
unfoldable pub window : HashCache → List String
window c =
    if ltb c.count c.size
    then take c.count c.hashes
    else drop c.head c.hashes ++ take c.head c.hashes

unfoldable pub member : String → List String → Bool
member k [] = false
member k (x ∷ xs) = if str_eq x k then true else member k xs

-- A bounded queue: the oldest entry makes room.
unfoldable pub enqueue : ℕ → List String → String → List String
enqueue size queue hash =
    if ltb (length queue) size then queue ++ hash ∷ [] else tail queue ++ hash ∷ []

contains_loop-take :
    (n : ℕ) (hashes : List String) (k : String)
    → contains_loop n hashes k ≡ member k (take n hashes)
unfolding contains_loop member
contains_loop-take zero hashes k = refl
contains_loop-take (suc n) [] k = refl
contains_loop-take (suc n) (x ∷ hashes) k = ground (arith, contains_loop-take n hashes k)

pub member-append :
    (k : String) (xs ys : List String) → member k (xs ++ ys) ≡ (member k xs || member k ys)
unfolding member
member-append k [] ys = refl
member-append k (x ∷ xs) ys = ground (arith, member-append k xs ys)

member-rotate :
    (k : String) (n : ℕ) (xs : List String) → member k (drop n xs ++ take n xs) ≡ member k xs
unfolding member
member-rotate k zero xs = ap (member k) (append-nil xs)
member-rotate k (suc n) [] = refl
member-rotate k (suc n) (x ∷ xs) = ground (
  arith,
  member-append k (drop n xs) (x ∷ take n xs),
  member-append k (drop n xs) (take n xs),
  member-rotate k n xs,
)

-- `Contains` looks the hash up in the queue.
pub contains-window : (c : HashCache) (k : String) → IsRing c → contains c k ≡ member k (window c)
unfolding contains window
contains-window c k v = elim (Bool-cases (ltb c.count c.size)) [
  | inl e ↦ rw e (contains_loop-take c.count c.hashes k)
  | inr e ↦ rw e (
      contains_loop-take c.count c.hashes k
      ∙ ap (member k) (take_all c.hashes c.count (omega (arith, v.sized, full e)))
      ∙ sym (member-rotate k c.head c.hashes))
]
  where
    full : ltb c.count c.size ≡ false → c.size ≤ c.count
    full h = ground arith

length-take-drop : (n : ℕ) (xs : List String) → length (drop n xs ++ take n xs) ≡ length xs
length-take-drop zero xs = ap length (append-nil xs)
length-take-drop (suc n) [] = refl
length-take-drop (suc n) (x ∷ xs) = omega (
  arith,
  length-append (drop n xs) (x ∷ take n xs),
  length-append (drop n xs) (take n xs),
  length-take-drop n xs,
)

length-take_le : (n : ℕ) (xs : List String) → n ≤ length xs → length (take n xs) ≡ n
length-take_le zero xs h = refl
length-take_le (suc n) [] h = absurd (omega arith)
length-take_le (suc n) (x ∷ xs) h = ap suc (length-take_le n xs (omega arith))

pub length-window : (c : HashCache) → IsRing c → length (window c) ≡ c.count
unfolding window
length-window c v = elim (Bool-cases (ltb c.count c.size)) [
  | inl e ↦ rw e (length-take_le c.count c.hashes (omega (arith, v.count_in, v.sized)))
  | inr e ↦ rw e (omega (arith, length-take-drop c.head c.hashes, v.sized, v.count_in, full e))
]
  where
    full : ltb c.count c.size ≡ false → c.size ≤ c.count
    full h = ground arith
