-- ===== src/HashCache/Removal.antt =====
-- pkg/ultimatemodel/hash_cache.go, `Remove`.
use llm_supervisor_proxy.Support.{ℕ, zero, suc, ◌<◌, ◌≤◌, ◌≡◌, false, String, List, some, arith}
use llm_supervisor_proxy.HashCache.{HashCache, contains_loop, find_loop}

pub find_loop-positive :
    (n i : ℕ) (hashes : List String) (k : String) → find_loop n hashes k ≡ some i → 0 < n
unfolding find_loop
find_loop-positive zero i hashes k h = absurd (ground (arith, h))
find_loop-positive (suc n) i hashes k h = omega arith

-- The head is behind the counted entries, with a gap between.
record Gap (c : HashCache) (k : String) : Type 0 where
  pub room : c.count < c.size
  pub gap : suc c.count ≤ c.head
  pub clean : contains_loop c.head c.hashes k ≡ false
