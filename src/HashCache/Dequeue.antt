-- ===== src/HashCache/Dequeue.antt =====
-- pkg/ultimatemodel/hash_cache.go, `Remove` of the oldest hash.
use llm_supervisor_proxy.Support.Assoc.{delete}
use mathlib.Core.List.{tail}
use native.Mathlib.Nat.{mod-eq_of_lt, add-mod_right}
use llm_supervisor_proxy.Support.{
  ℕ, zero, suc, ◌+◌, ◌-◌, ◌%◌, ◌<◌, ◌≤◌, ◌≡◌, refl, sym, ap, ◌∙◌, String, List, [], ◌∷◌, some,
  length, arith, lt→ltb, take,
}
use llm_supervisor_proxy.HashCache.{HashCache, find_loop, close_gap, shift_down, remove_at, remove}
use llm_supervisor_proxy.HashCache.Queue.{window_at}
use llm_supervisor_proxy.HashCache.Removal.{find_loop-positive}
use llm_supervisor_proxy.HashCache.Ring.{IsRing, window}

take-close_gap :
    (n : ℕ) (hashes : List String) → n ≤ length hashes → take n (close_gap n hashes) ≡ take n hashes
unfolding close_gap
take-close_gap zero hashes h = refl
take-close_gap (suc n) [] h = refl
take-close_gap (suc n) (x ∷ hashes) h = ap (◌∷◌ x) (take-close_gap n hashes (omega arith))

length-close_gap :
    (n : ℕ) (hashes : List String)
    → n ≤ length hashes
    → length (close_gap n hashes) ≡ suc (length hashes)
unfolding close_gap
length-close_gap zero hashes h = refl
length-close_gap (suc n) [] h = absurd (omega arith)
length-close_gap (suc n) (x ∷ hashes) h = ap suc (length-close_gap n hashes (omega arith))

take-shift_down :
    (n : ℕ) (hashes : List String)
    → suc n ≤ length hashes
    → (take n (shift_down 0 (suc n) hashes) ≡ tail (take (suc n) hashes))
      × (length (shift_down 0 (suc n) hashes) ≡ length hashes)
unfolding shift_down
take-shift_down n [] h = absurd (omega arith)
take-shift_down n (x ∷ hashes) h =
    (take-close_gap n hashes (omega arith), length-close_gap n hashes (omega arith))

head_back : (n size : ℕ) → suc n < size → (suc n + (size - 1)) % size ≡ n
head_back n size h = ap (λ a. a % size) shifted ∙ add-mod_right n size ∙ mod-eq_of_lt (omega arith)
  where
    shifted : suc n + (size - 1) ≡ n + size
    shifted = omega (arith, h)

module _ (c : HashCache) (k : String) (v : IsRing c) (r : c.count < c.size)
    (f : find_loop c.count c.hashes k ≡ some 0) where
  abbrev left : ℕ
  left = c.count - 1

  one_more : c.count ≡ suc left
  one_more = omega (arith, find_loop-positive c.count 0 c.hashes k f)

  abbrev shifted_to : ℕ → ℕ → HashCache
  shifted_to n head = record c {
    hashes = shift_down 0 n c.hashes;
    count = left;
    head = head;
    attempt_counter = delete k c.attempt_counter;
  }

  abbrev removed : HashCache
  removed = shifted_to (suc left) left

  head_moves : (c.head + (c.size - 1)) % c.size ≡ left
  head_moves =
      ap (λ h. (h + (c.size - 1)) % c.size) (v.in_front r ∙ one_more)
      ∙ head_back left c.size (omega (arith, r, one_more))

  remove-front : remove c k ≡ removed
  unfolding remove remove_at
  remove-front =
      ap (remove_at c k) f
      ∙ ap (λ n. shifted_to n ((c.head + (c.size - 1)) % c.size)) one_more
      ∙ ap (shifted_to (suc left)) head_moves

  shifted :
      (take left (shift_down 0 (suc left) c.hashes) ≡ tail (take (suc left) c.hashes))
      × (length (shift_down 0 (suc left) c.hashes) ≡ length c.hashes)
  shifted = take-shift_down left c.hashes (omega (arith, one_more, r, v.sized))

  removed-IsRing : IsRing removed
  removed-IsRing = record {
    sized = shifted.1 ∙ v.sized;
    positive = v.positive;
    head_in = omega (arith, r);
    count_in = omega (arith, r);
    in_front = λ _. refl;
  }

  window-counted : window c ≡ take (suc left) c.hashes
  window-counted =
      window_at c (suc left) c.head one_more refl
      ∙ (rw (lt→ltb (suc left) c.size (omega (arith, r, one_more))) refl)

  window-removed : window removed ≡ tail (window c)
  window-removed =
      window_at removed left left refl refl
      ∙ (rw (lt→ltb left c.size (omega (arith, r))) shifted.0)
      ∙ sym (ap tail window-counted)

  -- Removing the oldest hash of a buffer that is not full takes it off the front of the queue, and
  -- the buffer stays well formed: its entries in front, the head behind them.
  pub remove-dequeues : IsRing (remove c k) × (window (remove c k) ≡ tail (window c))
  remove-dequeues = rw remove-front (removed-IsRing, window-removed)
