-- ===== src/HashCache/Attempts.antt =====
-- pkg/ultimatemodel/hash_cache.go, the attempt counters: how often a hash was requested since it
-- was first seen, whatever other requests arrive in between.
use llm_supervisor_proxy.Support.Assoc.{lookup, lookup-insert, lookup-delete}
use mathlib.Core.List.{head-eq_of_cons-eq}
use llm_supervisor_proxy.Support.{
  ℕ, suc, ◌+◌, ◌<◌, ◌≡◌, refl, sym, ap, ◌∙◌, true, false, String, List, [], ◌∷◌, ◌++◌, some, ltb,
  length, get_or, str_eq, str_eq_refl, str_eq→eq, if◌then◌else◌, arith, Bool-cases, inl, inr, subst,
  lt→ltb, drop-cons, take, drop,
}
use llm_supervisor_proxy.HashCache.{
  HashCache, attempts, contains, evict, insert_locked, record_attempt,
}
use llm_supervisor_proxy.HashCache.Ring.{
  IsRing, window, member, enqueue, contains-window, length-window,
}
use llm_supervisor_proxy.HashCache.Behind.{
  Behind, enqueue-Behind, Behind-weaken, Behind-member, enqueue-new,
}
use llm_supervisor_proxy.HashCache.Queue.{
  record_attempt-present, record_attempt-absent, put_attempts-window, put_attempts-IsRing,
  insert_locked-IsRing, insert_locked-window,
}

-- Requests, one after the other.
unfoldable pub run : HashCache → List String → HashCache
run c [] = c
run c (k ∷ reqs) = run (record_attempt c k).1 reqs

-- The requests for the hash, and those for another one.
unfoldable pub mentions : String → List String → ℕ
mentions k [] = 0
mentions k (j ∷ reqs) = if str_eq j k then suc (mentions k reqs) else mentions k reqs

unfoldable pub others : String → List String → ℕ
others k [] = 0
others k (j ∷ reqs) = if str_eq j k then others k reqs else suc (others k reqs)

oldest :
    (c : HashCache) (x : String) (queue : List String)
    → IsRing c
    → ltb c.count c.size ≡ false
    → window c ≡ x ∷ queue
    → get_or c.hashes c.head "" ≡ x
unfolding window
oldest c x queue v e w = head-eq_of_cons-eq (sym full ∙ w)
  where
    full : window c ≡ get_or c.hashes c.head "" ∷ drop (suc c.head) c.hashes ++ take c.head c.hashes
    full = rw (e, drop-cons c.hashes c.head "" (omega (arith, v.sized, v.head_in))) refl

-- A full buffer loses the counter of the oldest hash of its queue only.
lookup-evict_full :
    (c : HashCache) (k x : String)
    → get_or c.hashes c.head "" ≡ x
    → str_eq x k ≡ false
    → lookup k (evict c) ≡ lookup k c.attempt_counter
unfolding evict
lookup-evict_full c k x o f = rw o (ground (arith, lookup-delete k x c.attempt_counter))

lookup-evict_room :
    (c : HashCache) (k : String)
    → ltb c.count c.size ≡ true
    → lookup k (evict c) ≡ lookup k c.attempt_counter
unfolding evict
lookup-evict_room c k e = ground arith

-- The invariant while other requests arrive: the hash is in the buffer with at most `n` younger
-- ones, and its counter is `m`.
record IsTracked (k : String) (size n m : ℕ) (c : HashCache) : Type 0 where
  pub ring : IsRing c
  pub sized : c.size ≡ size
  pub behind : Behind k n (window c)
  pub counted : lookup k c.attempt_counter ≡ some m

-- An insertion keeps the counter of a hash that is not the oldest.
lookup-evict :
    (c : HashCache) (k : String) (n : ℕ)
    → IsRing c
    → suc n < c.size
    → Behind k n (window c)
    → lookup k (evict c) ≡ lookup k c.attempt_counter
unfolding member
lookup-evict c k n v h ([], ys, w, f, g) =
    lookup-evict_room c k
      (lt→ltb c.count c.size (omega (arith, length-window c v, ap length w, g, h)))
lookup-evict c k n v h (x ∷ xs, ys, w, f, g) = elim (Bool-cases (ltb c.count c.size)) [
  | inl e ↦ lookup-evict_room c k e
  | inr e ↦ lookup-evict_full c k x (oldest c x (xs ++ k ∷ ys) v e w) (ground arith)
]

insert_locked-size : (c : HashCache) (k : String) → (insert_locked c k).size ≡ c.size
unfolding insert_locked
insert_locked-size c k = refl

insert_locked-Behind :
    (c : HashCache) (j k : String) (n : ℕ)
    → IsRing c
    → suc n < c.size
    → Behind k n (window c)
    → Behind k (suc n) (window (insert_locked c j))
insert_locked-Behind c j k n v h (xs, ys, w, f, g) =
    subst (Behind k (suc n)) (sym (insert_locked-window c j v ∙ ap (λ q. enqueue c.size q j) w))
      (enqueue-Behind c.size n j k xs ys h f g)

insert_locked-counter : (c : HashCache) (k : String) → (insert_locked c k).attempt_counter ≡ evict c
unfolding insert_locked
insert_locked-counter c k = refl

module _ (k : String) (size n m : ℕ) (c : HashCache) (t : IsTracked k size n m c) where
  tracked_present : contains c k ≡ true
  tracked_present = contains-window c k t.ring ∙ Behind-member k n (window c) t.behind

  -- The next request for the hash gets the next number.
  IsTracked-again :
      ((record_attempt c k).0 ≡ suc m) × IsTracked k size n (suc m) (record_attempt c k).1
  IsTracked-again =
      subst (λ r. (r.0 ≡ suc m) × IsTracked k size n (suc m) r.1)
        (sym (record_attempt-present c k tracked_present))
        (
          next,
          record {
            ring = put_attempts-IsRing c k _ t.ring;
            sized = t.sized;
            behind = subst (Behind k n) (sym (put_attempts-window c k _)) t.behind;
            counted = lookup-insert k k _ c.attempt_counter ∙ (rw (str_eq_refl k) (ap some next));
          },
        )
    where
      next : attempts c k + 1 ≡ suc m
      next = ground (arith, t.counted)

  IsTracked-other :
      (j : String)
      → str_eq j k ≡ false
      → suc n < size
      → IsTracked k size (suc n) m (record_attempt c j).1
  IsTracked-other j d h = elim (Bool-cases (contains c j)) [
    | inl e ↦
        subst (λ r. IsTracked k size (suc n) m r.1) (sym (record_attempt-present c j e))
          (record {
            ring = put_attempts-IsRing c j _ t.ring;
            sized = t.sized;
            behind =
                subst (Behind k (suc n)) (sym (put_attempts-window c j _))
                  (Behind-weaken k n (window c) t.behind);
            counted = lookup-insert k j _ c.attempt_counter ∙ ground (arith, t.counted);
          })
    | inr e ↦
        subst (λ r. IsTracked k size (suc n) m r.1) (sym (record_attempt-absent c j e))
          (record {
            ring = put_attempts-IsRing (insert_locked c j) j 1 (insert_locked-IsRing c j t.ring);
            sized = insert_locked-size c j ∙ t.sized;
            behind =
                subst (Behind k (suc n)) (sym (put_attempts-window (insert_locked c j) j 1))
                  (insert_locked-Behind c j k n t.ring (room h) t.behind);
            counted =
                lookup-insert k j 1 (insert_locked c j).attempt_counter
                ∙ (rw (d, insert_locked-counter c j)
                    (lookup-evict c k n t.ring (room h) t.behind ∙ t.counted));
          })
  ]
    where
      room : suc n < size → suc n < c.size
      room h = omega (arith, t.sized, h)

reindex :
    (k : String) (size : ℕ) (n p m q : ℕ) (c : HashCache)
    → n ≡ p
    → m ≡ q
    → IsTracked k size n m c
    → IsTracked k size p q c
reindex k size n p m q c a b t =
    subst (λ x. IsTracked k size p x c) b (subst (λ x. IsTracked k size x m c) a t)

-- Every other request is counted as a possible eviction, and none happens within the buffer's size.
IsTracked-run :
    (k : String) (size n m : ℕ) (c : HashCache) (reqs : List String)
    → n + others k reqs < size
    → IsTracked k size n m c
    → IsTracked k size (n + others k reqs) (m + mentions k reqs) (run c reqs)
unfolding others mentions run
IsTracked-run k size n m c [] h t =
    reindex k size n (n + 0) m (m + 0) c (omega arith) (omega arith) t
IsTracked-run k size n m c (j ∷ reqs) h t = elim (Bool-cases (str_eq j k)) [
  | inl e ↦
      let again =
        subst (λ i. IsTracked k size n (suc m) (record_attempt c i).1) (sym (str_eq→eq j k e))
          (IsTracked-again k size n m c t).1 in
      let rest = IsTracked-run k size n (suc m) (record_attempt c j).1 reqs (ground arith) again in
      reindex k size _ _ _ _ (run (record_attempt c j).1 reqs) (ground arith) (ground arith) rest
  | inr e ↦
      let other = IsTracked-other k size n m c t j e (ground arith) in
      let rest = IsTracked-run k size (suc n) m (record_attempt c j).1 reqs (ground arith) other in
      reindex k size _ _ _ _ (run (record_attempt c j).1 reqs) (ground arith) (ground arith) rest
]

IsTracked-first :
    (k : String) (c : HashCache)
    → IsRing c
    → contains c k ≡ false
    → ((record_attempt c k).0 ≡ 1) × IsTracked k c.size 0 1 (record_attempt c k).1
IsTracked-first k c v e =
    subst (λ r. (r.0 ≡ 1) × IsTracked k c.size 0 1 r.1) (sym (record_attempt-absent c k e))
      (
        refl,
        record {
          ring = put_attempts-IsRing (insert_locked c k) k 1 (insert_locked-IsRing c k v);
          sized = insert_locked-size c k;
          behind =
              subst (Behind k 0)
                (sym (put_attempts-window (insert_locked c k) k 1 ∙ insert_locked-window c k v))
                (enqueue-new c.size (window c) k (sym (contains-window c k v) ∙ e));
          counted =
              lookup-insert k k 1 (insert_locked c k).attempt_counter ∙ (rw (str_eq_refl k) refl);
        },
      )

-- In a buffer whose ring is well-formed (IsRing, which a removal can break) and that holds no hash
-- `k`, a first request for `k` gets number 1. As long as nothing is removed and fewer requests for
-- other hashes follow than the buffer has places, the request after them gets the number of all
-- requests for `k` so far: no eviction resets the count.
pub attempt_number :
    (k : String) (c : HashCache) (reqs : List String)
    → IsRing c
    → contains c k ≡ false
    → others k reqs < c.size
    → ((record_attempt c k).0 ≡ 1)
      × ((record_attempt (run (record_attempt c k).1 reqs) k).0 ≡ suc (suc (mentions k reqs)))
attempt_number k c reqs v e h =
    let first = IsTracked-first k c v e in
    (
      first.0,
      (IsTracked-again k c.size _ _ _
            (IsTracked-run k c.size 0 1 (record_attempt c k).1 reqs (omega (arith, h)) first.1)).0
          ∙ omega arith,
    )

pub record_attempt-contains :
    (c : HashCache) (k : String)
    → IsRing c
    → contains c k ≡ false
    → contains (record_attempt c k).1 k ≡ true
record_attempt-contains c k v e =
    tracked_present k c.size 0 1 (record_attempt c k).1 (IsTracked-first k c v e).1

pub attempt_again :
    (c : HashCache) (k : String)
    → IsRing c
    → contains c k ≡ false
    → (record_attempt (record_attempt c k).1 k).0 ≡ 2
attempt_again c k v e =
    (IsTracked-again k c.size 0 1 (record_attempt c k).1 (IsTracked-first k c v e).1).0
