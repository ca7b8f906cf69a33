-- ===== src/HashCache/Behind.antt =====
-- A hash in the bounded queue and the younger ones behind it, for the counters of
-- pkg/ultimatemodel/hash_cache.go.
use mathlib.Core.List.{append_assoc, tail}
use llm_supervisor_proxy.Support.{
  ℕ, suc, ◌<◌, ◌≤◌, ◌≡◌, refl, sym, ap, ◌∙◌, true, false, String, List, [], ◌∷◌, ◌++◌, ltb, length,
  length-append, str_eq_refl, arith, Bool-cases, inl, inr, subst, lt→ltb,
}
use llm_supervisor_proxy.HashCache.Ring.{member-append, member, enqueue}

-- The hash stands in the queue once, with at most `n` entries behind it.
abbrev pub Behind : String → ℕ → List String → Type 0
Behind k n queue =
    (xs : List String) × (ys : List String) × (queue ≡ xs ++ k ∷ ys)
    × (member k xs ≡ false)
    × (length ys ≤ n)

append-Behind :
    (n : ℕ) (j k : String) (xs ys : List String)
    → member k xs ≡ false
    → length ys ≤ n
    → Behind k (suc n) ((xs ++ k ∷ ys) ++ j ∷ [])
append-Behind n j k xs ys f g = (
  xs,
  ys ++ j ∷ [],
  append_assoc xs (k ∷ ys) (j ∷ []),
  f,
  omega (arith, length-append ys (j ∷ []), g),
)

enqueue-room :
    (size : ℕ) (queue : List String) (j : String)
    → ltb (length queue) size ≡ true
    → enqueue size queue j ≡ queue ++ j ∷ []
unfolding enqueue
enqueue-room size queue j e = rw e refl

enqueue-full :
    (size : ℕ) (queue : List String) (j : String)
    → ltb (length queue) size ≡ false
    → enqueue size queue j ≡ tail queue ++ j ∷ []
unfolding enqueue
enqueue-full size queue j e = rw e refl

pub enqueue-Behind :
    (size n : ℕ) (j k : String) (xs ys : List String)
    → suc n < size
    → member k xs ≡ false
    → length ys ≤ n
    → Behind k (suc n) (enqueue size (xs ++ k ∷ ys) j)
unfolding member
enqueue-Behind size n j k [] ys h f g =
    subst (Behind k (suc n))
      (sym (enqueue-room size (k ∷ ys) j (lt→ltb (suc (length ys)) size (omega (arith, g, h)))))
      (append-Behind n j k [] ys f g)
enqueue-Behind size n j k (x ∷ xs) ys h f g =
    elim (Bool-cases (ltb (length (x ∷ xs ++ k ∷ ys)) size)) [
      | inl e ↦
          subst (Behind k (suc n)) (sym (enqueue-room size (x ∷ xs ++ k ∷ ys) j e))
            (append-Behind n j k (x ∷ xs) ys f g)
      | inr e ↦
          subst (Behind k (suc n)) (sym (enqueue-full size (x ∷ xs ++ k ∷ ys) j e))
            (append-Behind n j k xs ys (ground arith) g)
    ]

pub Behind-weaken :
    (k : String) (n : ℕ) (queue : List String) → Behind k n queue → Behind k (suc n) queue
Behind-weaken k n queue (xs, ys, e, f, g) = (xs, ys, e, f, omega (arith, g))

pub Behind-member :
    (k : String) (n : ℕ) (queue : List String) → Behind k n queue → member k queue ≡ true
unfolding member
Behind-member k n queue (xs, ys, e, f, g) =
    ap (member k) e ∙ ground (arith, member-append k xs (k ∷ ys), str_eq_refl k)

member-tail :
    (k : String) (queue : List String) → member k queue ≡ false → member k (tail queue) ≡ false
unfolding member
member-tail k [] h = refl
member-tail k (x ∷ xs) h = ground arith

-- A new hash has nothing behind it.
pub enqueue-new :
    (size : ℕ) (queue : List String) (k : String)
    → member k queue ≡ false
    → Behind k 0 (enqueue size queue k)
enqueue-new size queue k h = elim (Bool-cases (ltb (length queue) size)) [
  | inl e ↦ (queue, [], enqueue-room size queue k e, h, omega arith)
  | inr e ↦ (tail queue, [], enqueue-full size queue k e, member-tail k queue h, omega arith)
]
