-- ===== src/Lru/Bounded.antt =====
-- pkg/modelscache/lru.go, the size of the map and what a write does to the other entries.
use llm_supervisor_proxy.Support.Assoc.{Map, lookup, delete}
use llm_supervisor_proxy.Support.{
  ℕ, zero, suc, ◌+◌, ◌-◌, ◌<◌, ◌≤◌, ◌≡◌, ◌⊎◌, inl, inr, false, String, [], ◌∷◌, none, some, str_eq,
  length, arith, Option-cases,
}
use llm_supervisor_proxy.Lru.{
  Lru, new_lru, move_to_front, peek, drop_back, evict_loop, put_at, put, peek-put_other,
  peek-put_self,
}

module _ {ℓ} {V : Type ℓ} where
  pub record IsBounded (l : Lru V) : Type 0 where
    pub room : 0 < l.cap
    pub within : length l.items ≤ l.cap

  length-delete-le : (k : String) (m : Map V) → length (delete k m) ≤ length m
  unfolding delete
  length-delete-le k [] = omega arith
  length-delete-le k ((j, v) ∷ m) = ground (arith, length-delete-le k m)

  length-delete_present :
      (k : String) (v : V) (m : Map V) → lookup k m ≡ some v → length (delete k m) < length m
  unfolding delete lookup
  length-delete_present k v [] h = absurd (ground (arith, h))
  length-delete_present k v ((j, w) ∷ m) h =
      ground (arith, h, length-delete-le k m, length-delete_present k v m)

  length-drop_back : (m : Map V) → length (drop_back m) ≡ length m - 1
  unfolding drop_back
  length-drop_back [] = omega arith
  length-drop_back (x ∷ []) = omega arith
  length-drop_back (x ∷ y ∷ m) = omega (arith, length-drop_back (y ∷ m))

  length-evict_loop :
      (fuel cap : ℕ) (m : Map V) → length m ≤ cap + fuel → length (evict_loop fuel cap m) ≤ cap
  unfolding evict_loop
  length-evict_loop zero cap m h = omega (arith, h)
  length-evict_loop (suc fuel) cap m h =
      ground (arith, h, length-drop_back m, length-evict_loop fuel cap (drop_back m))

  put-IsBounded : (k : String) (v : V) (l : Lru V) → IsBounded l → IsBounded (put k v l)
  unfolding put put_at move_to_front
  put-IsBounded k v l b = elim (Option-cases (lookup k l.items)) [
    | inr (old, e) ↦ rw e (record {
      room = b.room;
      within = omega (arith, b.within, length-delete_present k old l.items e);
    })
    | inl e ↦ rw e (record {
      room = b.room;
      within =
          length-evict_loop (suc (length l.items)) l.cap ((k, v) ∷ l.items)
            (omega (arith, b.within));
    })
  ]

  pub new_lru-IsBounded : (capacity : ℕ) → IsBounded (new_lru capacity)
  unfolding new_lru
  new_lru-IsBounded capacity = record { room = ground arith; within = omega arith }

  -- A write to a map within its capacity leaves it within its capacity, is read back, and leaves every
  -- other entry as it was or evicts it.
  pub put-writes :
      (j k : String) (v : V) (l : Lru V)
      → IsBounded l
      → str_eq k j ≡ false
      → IsBounded (put k v l)
        × (peek k (put k v l) ≡ some v)
        × ((peek j (put k v l) ≡ peek j l) ⊎ (peek j (put k v l) ≡ none))
  put-writes j k v l b d =
      (put-IsBounded k v l b, peek-put_self k v l b.room, peek-put_other k j v l d)
