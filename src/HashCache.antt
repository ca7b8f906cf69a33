-- ===== src/HashCache.antt =====
-- pkg/ultimatemodel/hash_cache.go: the ring buffer of request hashes with their attempt counters.
-- The slice of fixed length is a list of that length; an index is in range by the invariant.
pub mod Ring
pub mod Queue
pub mod Behind
pub mod Attempts
pub mod Removal
pub mod Dequeue
pub mod Examples
use llm_supervisor_proxy.Support.Int.{ℤ, pos, pos_part, leb_ℤ}
use llm_supervisor_proxy.Support.Assoc.{Map, lookup, insert, delete}
use llm_supervisor_proxy.Support.{
  ℕ, zero, suc, ◌+◌, ◌-◌, ◌%◌, Bool, true, false, String, List, [], ◌∷◌, Option, none, some, ltb,
  leb, ◌==◌, str_eq, get_or, set, replicate, if◌then◌else◌,
}

pub record HashCache : Type 0 where
  pub hashes : List String
  pub size : ℕ
  pub head : ℕ
  pub count : ℕ
  pub attempt_counter : Map ℕ

abbrev pub empty_cache : ℕ → HashCache
empty_cache size = record {
  hashes = replicate size "";
  size = size;
  head = 0;
  count = 0;
  attempt_counter = [];
}

unfoldable pub new_hash_cache : ℤ → HashCache
new_hash_cache max_size =
    if leb_ℤ max_size (pos 0) then empty_cache 100 else empty_cache (pos_part max_size)

-- The loop of `containsLocked`, over the first `count` entries.
unfoldable pub contains_loop : ℕ → List String → String → Bool
contains_loop zero hashes hash = false
contains_loop (suc n) [] hash = false
contains_loop (suc n) (x ∷ hashes) hash =
    if str_eq x hash then true else contains_loop n hashes hash

unfoldable pub contains : HashCache → String → Bool
contains c hash = contains_loop c.count c.hashes hash

-- A full buffer forgets the counter of the entry at the head.
unfoldable pub evict : HashCache → Map ℕ
evict c =
    if leb c.size c.count
    then (let evicted = get_or c.hashes c.head "" in
        if str_eq evicted "" then c.attempt_counter else delete evicted c.attempt_counter)
    else c.attempt_counter

unfoldable pub insert_locked : HashCache → String → HashCache
insert_locked c hash = record c {
  hashes = set c.hashes c.head hash;
  head = (c.head + 1) % c.size;
  count = if ltb c.count c.size then c.count + 1 else c.count;
  attempt_counter = evict c;
}

-- `attemptCounter[hash]`, 0 for a missing key.
abbrev pub attempts : HashCache → String → ℕ
attempts c hash = elim (lookup hash c.attempt_counter) [ none ↦ 0 | some n ↦ n ]

abbrev pub put_attempts : String → ℕ → HashCache → HashCache
put_attempts hash n c = record c { attempt_counter = insert hash n c.attempt_counter }

unfoldable pub record_attempt : HashCache → String → ℕ × HashCache
record_attempt c hash =
    if contains c hash
    then (attempts c hash + 1, put_attempts hash (attempts c hash + 1) c)
    else (1, put_attempts hash 1 (insert_locked c hash))

unfoldable pub store_if_absent : HashCache → String → HashCache
store_if_absent c hash = if contains c hash then c else put_attempts hash 1 (insert_locked c hash)

-- The index at which the loop of `Remove` stops.
unfoldable pub find_loop : ℕ → List String → String → Option ℕ
find_loop zero hashes hash = none
find_loop (suc n) [] hash = none
find_loop (suc n) (x ∷ hashes) hash =
    let rest = find_loop n hashes hash in
    if str_eq x hash then some 0 else elim rest [ none ↦ none | some i ↦ some (suc i) ]

-- `copy(hashes[i:], hashes[i+1:count])` and the cleared last entry: the `n` entries behind the gap
-- move down, and the place that they leave is empty.
unfoldable pub close_gap : ℕ → List String → List String
close_gap zero hashes = "" ∷ hashes
close_gap (suc n) [] = []
close_gap (suc n) (x ∷ hashes) = x ∷ close_gap n hashes

unfoldable pub shift_down : ℕ → ℕ → List String → List String
shift_down i n [] = []
shift_down i zero (x ∷ hashes) = x ∷ hashes
shift_down zero (suc n) (x ∷ hashes) = close_gap n hashes
shift_down (suc i) (suc n) (x ∷ hashes) = x ∷ shift_down i n hashes

-- The rest of `Remove`, from the index that the loop found.
unfoldable pub remove_at : HashCache → String → Option ℕ → HashCache
remove_at c hash none = record c { attempt_counter = delete hash c.attempt_counter }
remove_at c hash (some i) = record c {
  hashes = shift_down i c.count c.hashes;
  count = c.count - 1;
  head = if i == 0 then (c.head + (c.size - 1)) % c.size else c.head;
  attempt_counter = delete hash c.attempt_counter;
}

unfoldable pub remove : HashCache → String → HashCache
remove c hash = remove_at c hash (find_loop c.count c.hashes hash)

unfoldable pub reset : HashCache → HashCache
reset c = empty_cache c.size

unfoldable pub get_stats : HashCache → ℕ × ℕ
get_stats c = (c.count, c.size)
