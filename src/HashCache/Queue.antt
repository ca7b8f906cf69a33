-- ===== src/HashCache/Queue.antt =====
-- pkg/ultimatemodel/hash_cache.go, insertion: the ring buffer against a bounded queue.
use llm_supervisor_proxy.Support.Int.{ℤ, pos, pos_part, leb_ℤ}
use mathlib.Core.List.{append_assoc, append-nil, tail}
use native.Mathlib.Nat.{mod-eq_of_lt, mod_self}
use native.Mathlib.Numerals.{add-one}
use llm_supervisor_proxy.Support.{
  ℕ, suc, ◌+◌, ◌%◌, ◌<◌, ◌≡◌, refl, sym, ap, ◌∙◌, true, false, String, List, [], ◌∷◌, ◌++◌, ltb,
  length, set, take, drop, length-set, length-replicate, take-set_next, drop-set_below, drop-cons,
  take_all, drop_all, if◌then◌else◌, arith, Bool-cases, inl, inr, subst, ltb→lt, lt→ltb, ◌⊎◌,
}
use llm_supervisor_proxy.HashCache.{
  attempts, put_attempts, HashCache, new_hash_cache, empty_cache, contains, insert_locked,
  record_attempt, reset,
}
use llm_supervisor_proxy.HashCache.Ring.{
  contains-window, member, IsRing, window, enqueue, length-window,
}

head_next :
    (c : HashCache)
    → IsRing c
    → ((c.head + 1 < c.size) × ((c.head + 1) % c.size ≡ suc c.head))
      ⊎ ((c.head + 1 ≡ c.size) × ((c.head + 1) % c.size ≡ 0))
head_next c v = elim (Bool-cases (ltb (c.head + 1) c.size)) [
  | inl e ↦
      inl
        (ltb→lt (c.head + 1) c.size e, mod-eq_of_lt (ltb→lt (c.head + 1) c.size e) ∙ add-one c.head)
  | inr e ↦ inr (last e, ap (λ a. a % c.size) (last e) ∙ mod_self c.size)
]
  where
    last : ltb (c.head + 1) c.size ≡ false → c.head + 1 ≡ c.size
    last h = ground (arith, v.head_in)

pub insert_locked-IsRing : (c : HashCache) (k : String) → IsRing c → IsRing (insert_locked c k)
unfolding insert_locked
insert_locked-IsRing c k v = record {
  sized = length-set c.hashes c.head k ∙ v.sized;
  positive = v.positive;
  head_in = ground (arith, head_next c v, v.positive);
  count_in = ground (arith, v.count_in);
  in_front = λ h. ground (arith, head_next c v, v.in_front, v.count_in, h);
}

-- Writing at the head of a full buffer, as a function of the list and the position.
window_full :
    (xs : List String) (i : ℕ) (k : String)
    → i < length xs
    → drop (suc i) (set xs i k) ++ take (suc i) (set xs i k)
      ≡ tail (drop i xs ++ take i xs) ++ k ∷ []
window_full xs i k h =
    rw (drop-set_below xs (suc i) i k (omega arith), take-set_next xs i k h, drop-cons xs i "" h)
      (sym (append_assoc (drop (suc i) xs) (take i xs) (k ∷ [])))

pub window_at :
    (c : HashCache) (n h : ℕ)
    → c.count ≡ n
    → c.head ≡ h
    → window c ≡ (if ltb n c.size then take n c.hashes else drop h c.hashes ++ take h c.hashes)
unfolding window
window_at c n h e f = rw (e, f) refl

-- A position at the end of the list is position zero.
rotate_all : (xs : List String) (n : ℕ) → length xs ≡ n → drop n xs ++ take n xs ≡ xs ++ []
rotate_all xs n e =
    rw (drop_all xs n (omega (arith, e)), take_all xs n (omega (arith, e)), append-nil xs) refl

module _ (c : HashCache) (k : String) (v : IsRing c) where
  filling :
      ltb c.count c.size ≡ true → take (suc c.head) (set c.hashes c.head k) ≡ window c ++ k ∷ []
  unfolding window
  filling e = rw e (
      take-set_next c.hashes c.head k (omega (arith, v.sized, v.head_in))
      ∙ ap (λ n. take n c.hashes ++ k ∷ []) (v.in_front (ltb→lt c.count c.size e)))

  to_enqueue_room : ltb c.count c.size ≡ true → enqueue c.size (window c) k ≡ window c ++ k ∷ []
  unfolding enqueue
  to_enqueue_room e = rw (length-window c v, e) refl

  to_enqueue_full :
      ltb c.count c.size ≡ false → enqueue c.size (window c) k ≡ tail (window c) ++ k ∷ []
  unfolding enqueue
  to_enqueue_full e = rw (length-window c v, e) refl

  overwriting :
      ltb c.count c.size ≡ false
      → drop (suc c.head) (set c.hashes c.head k) ++ take (suc c.head) (set c.hashes c.head k)
        ≡ tail (window c) ++ k ∷ []
  unfolding window
  overwriting e = rw e (window_full c.hashes c.head k (omega (arith, v.sized, v.head_in)))

  abbrev stored : HashCache
  stored = insert_locked c k

  abbrev hashes : List String
  hashes = set c.hashes c.head k

  grown : ltb c.count c.size ≡ true → stored.count ≡ suc c.head
  unfolding insert_locked
  grown e = rw e (omega (arith, v.in_front (ltb→lt c.count c.size e)))

  kept : ltb c.count c.size ≡ false → stored.count ≡ c.count
  unfolding insert_locked
  kept e = rw e refl

  length-hashes : length hashes ≡ c.size
  length-hashes = length-set c.hashes c.head k ∙ v.sized

  at_end : c.head + 1 ≡ c.size → ltb (suc c.head) c.size ≡ false
  at_end p = ground arith

  window_stepped :
      c.head + 1 < c.size
      → (c.head + 1) % c.size ≡ suc c.head
      → window (insert_locked c k) ≡ enqueue c.size (window c) k
  unfolding insert_locked
  window_stepped p q = elim (Bool-cases (ltb c.count c.size)) [
    | inl e ↦
        window_at stored (suc c.head) (suc c.head) (grown e) q
        ∙ (rw (lt→ltb (suc c.head) c.size (omega arith)) (filling e))
        ∙ sym (to_enqueue_room e)
    | inr e ↦
        window_at stored c.count (suc c.head) (kept e) q
        ∙ (rw e (overwriting e))
        ∙ sym (to_enqueue_full e)
  ]

  window_wrapped :
      c.head + 1 ≡ c.size
      → (c.head + 1) % c.size ≡ 0
      → window (insert_locked c k) ≡ enqueue c.size (window c) k
  unfolding insert_locked
  window_wrapped p q = elim (Bool-cases (ltb c.count c.size)) [
    | inl e ↦
        window_at stored (suc c.head) 0 (grown e) q
        ∙ (rw (at_end p) (
            append-nil hashes
            ∙ sym (take_all hashes (suc c.head) (omega (arith, p, length-hashes)))
            ∙ filling e))
        ∙ sym (to_enqueue_room e)
    | inr e ↦
        window_at stored c.count 0 (kept e) q
        ∙ (rw e (
            sym (rotate_all hashes (suc c.head) (omega (arith, p, length-hashes))) ∙ overwriting e))
        ∙ sym (to_enqueue_full e)
  ]

  -- Storing a hash puts it at the end of the queue, and the oldest one makes room in a full buffer.
  pub insert_locked-window : window (insert_locked c k) ≡ enqueue c.size (window c) k
  insert_locked-window = elim (head_next c v) [
    | inl (p, q) ↦ window_stepped p q
    | inr (p, q) ↦ window_wrapped p q
  ]

empty_cache-IsRing : (size : ℕ) → 0 < size → IsRing (empty_cache size)
empty_cache-IsRing size h = record {
  sized = length-replicate size "";
  positive = h;
  head_in = h;
  count_in = omega arith;
  in_front = λ _. refl;
}

pub new_hash_cache-IsRing : (max_size : ℤ) → IsRing (new_hash_cache max_size)
unfolding new_hash_cache
new_hash_cache-IsRing max_size = elim (Bool-cases (leb_ℤ max_size (pos 0))) [
  | inl e ↦ rw e (empty_cache-IsRing 100 (omega arith))
  | inr e ↦ rw e (empty_cache-IsRing (pos_part max_size) (ground arith))
]

pub reset-IsRing : (c : HashCache) → IsRing c → IsRing (reset c)
unfolding reset
reset-IsRing c v = empty_cache-IsRing c.size v.positive

pub put_attempts-IsRing :
    (c : HashCache) (k : String) (n : ℕ) → IsRing c → IsRing (put_attempts k n c)
put_attempts-IsRing c k n v = record {
  sized = v.sized;
  positive = v.positive;
  head_in = v.head_in;
  count_in = v.count_in;
  in_front = v.in_front;
}

pub put_attempts-window :
    (c : HashCache) (k : String) (n : ℕ) → window (put_attempts k n c) ≡ window c
unfolding window
put_attempts-window c k n = refl

-- The cache after a request, against the bounded queue.
abbrev pub Requested : ℕ → List String → String → HashCache → Type 0
Requested size queue k c =
    IsRing c × (window c ≡ (if member k queue then queue else enqueue size queue k))

pub record_attempt-present :
    (c : HashCache) (k : String)
    → contains c k ≡ true
    → record_attempt c k ≡ (attempts c k + 1, put_attempts k (attempts c k + 1) c)
unfolding record_attempt
record_attempt-present c k e = rw e refl

pub record_attempt-absent :
    (c : HashCache) (k : String)
    → contains c k ≡ false
    → record_attempt c k ≡ (1, put_attempts k 1 (insert_locked c k))
unfolding record_attempt
record_attempt-absent c k e = rw e refl

-- A request for a hash does to the ring buffer what it does to a bounded first-in first-out queue: a
-- hash that is in the queue changes nothing, a new one goes to the end, and when the queue is full
-- the oldest one makes room for it. The buffer stays well formed.
pub record_attempt-Requested :
    (c : HashCache) (k : String) → IsRing c → Requested c.size (window c) k (record_attempt c k).1
record_attempt-Requested c k v = elim (Bool-cases (contains c k)) [
  | inl e ↦
      subst (λ r. Requested c.size (window c) k r.1) (sym (record_attempt-present c k e))
        (
          put_attempts-IsRing c k _ v,
          put_attempts-window c k _ ∙ (rw (sym (contains-window c k v), e) refl),
        )
  | inr e ↦
      subst (λ r. Requested c.size (window c) k r.1) (sym (record_attempt-absent c k e))
        (
          put_attempts-IsRing (insert_locked c k) k 1 (insert_locked-IsRing c k v),
          put_attempts-window (insert_locked c k) k 1
              ∙ insert_locked-window c k v
              ∙ (rw (sym (contains-window c k v), e) refl),
        )
]
