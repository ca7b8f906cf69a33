-- ===== src/TokenCache/Refusal.antt =====
-- pkg/modelscache/tokens.go: the answers for a hash without a cached token.
use llm_supervisor_proxy.Support.Assoc.{lookup}
use llm_supervisor_proxy.Support.{
  ℕ, ◌≡◌, refl, ap, inl, inr, Bool, true, String, List, Option, none, some, arith, Bool-cases,
  Option-cases, subst,
}
use llm_supervisor_proxy.Lru.{peek, peek-remove}
use llm_supervisor_proxy.TokenCache.{
  StoreError, TokenEntry, positive, negative, CachedTokenStore, Answer, allowed, denied,
  entry_verdict, cached_verdict, is_verdict_class, stale_answer, revalidate, Request,
  validate_token, delete_token, delete_indexed,
}
use llm_supervisor_proxy.TokenCache.Denial.{
  refuses, IsDenied, is_denied, IsQuiet, Op, run, AllQuiet, run-IsDenied, store_negative-IsDenied,
}

-- A call for a hash without a cached token is answered by the inner store or by a cached refusal.
cached_verdict-is_denied :
    (c : CachedTokenStore) (now : ℕ) (o : Option TokenEntry) (a : Answer)
    → refuses o ≡ true
    → entry_verdict c now o ≡ some a
    → is_denied a ≡ true
unfolding entry_verdict
cached_verdict-is_denied c now none a h e = absurd (ground (arith, e))
cached_verdict-is_denied c now (some (positive token fresh cached_at)) a h e =
    absurd (ground (arith, h))
cached_verdict-is_denied c now (some (negative verdict cached_at)) a h e = ground (arith, e)

stale-is_denied :
    (c : CachedTokenStore) (now : ℕ) (err : StoreError) (o : Option TokenEntry)
    → refuses o ≡ true
    → is_denied (stale_answer c now err o) ≡ true
unfolding stale_answer
stale-is_denied c now err none h = refl
stale-is_denied c now err (some (negative verdict cached_at)) h = refl
stale-is_denied c now err (some (positive token fresh cached_at)) h = absurd (ground (arith, h))

revalidate-is_denied :
    (is_infra_error : StoreError → Bool) (k : String) (now : ℕ) (inner : Answer)
    (c : CachedTokenStore)
    → is_denied inner ≡ true
    → IsDenied k c
    → is_denied (revalidate is_infra_error k now inner c).0 ≡ true
unfolding revalidate
revalidate-is_denied f k now (allowed token) c d h = absurd (ground (arith, d))
revalidate-is_denied f k now (denied err) c d h = elim (Bool-cases (is_verdict_class err)) [
  | inl e ↦ rw e refl
  | inr e ↦ elim (Bool-cases (f err)) [
    | inl g ↦ rw (e, g) (stale-is_denied c now err (peek k c.entries) h)
    | inr g ↦ rw (e, g) refl
  ]
]

validate_token-is_denied :
    (is_infra_error : StoreError → Bool) (r : Request) (c : CachedTokenStore)
    → is_denied r.inner ≡ true
    → ((c : CachedTokenStore) → IsDenied r.hash c → IsDenied r.hash (r.others c))
    → IsDenied r.hash c
    → is_denied (validate_token is_infra_error r c).0 ≡ true
unfolding validate_token cached_verdict
validate_token-is_denied f r c d calm h = elim (Bool-cases r.well_formed) [
  | inr e ↦ rw e refl
  | inl e ↦ elim (Option-cases (cached_verdict r.hash r.now c)) [
    | inr (a, g) ↦ rw (e, g) (cached_verdict-is_denied c r.now (peek r.hash c.entries) a h g)
    | inl g ↦ rw (e, g) (revalidate-is_denied f r.hash r.now r.inner (r.others c) d (calm c h))
  ]
]

-- The token of an id that the index knows is not in the cache once it is deleted.
delete_token-IsDenied :
    (id k : String) (c : CachedTokenStore)
    → lookup id c.id_to_hash ≡ some k
    → IsDenied k (delete_token id c)
unfolding delete_token delete_indexed
delete_token-IsDenied id k c e = rw e (ap refuses (peek-remove k c.entries))

-- A token that is deleted through an id under which the index of ids still has its hash stays out
-- (the index is bounded apart from the cache, and can have lost the id): whatever calls come after, as long as the inner
-- store says yes to none for its hash and no other goroutine caches it, every validation of it is
-- denied, an outage of the inner store included.
pub deleted_stays_out :
    (is_infra_error : StoreError → Bool) (id : String) (c : CachedTokenStore) (ops : List Op)
    (r : Request)
    → lookup id c.id_to_hash ≡ some r.hash
    → AllQuiet r.hash ops
    → IsQuiet r.hash r
    → is_denied r.inner ≡ true
    → is_denied (validate_token is_infra_error r (run is_infra_error ops (delete_token id c))).0
      ≡ true
deleted_stays_out f id c ops r e q s d =
    validate_token-is_denied f r (run f ops (delete_token id c)) d s.calm
      (run-IsDenied f r.hash ops (delete_token id c) q (delete_token-IsDenied id r.hash c e))

refused-IsDenied :
    (is_infra_error : StoreError → Bool) (first : Request) (err : StoreError) (c : CachedTokenStore)
    → first.well_formed ≡ true
    → cached_verdict first.hash first.now c ≡ none
    → first.inner ≡ denied err
    → is_verdict_class err ≡ true
    → IsDenied first.hash (validate_token is_infra_error first c).1
unfolding validate_token revalidate
refused-IsDenied f first err c w n i v =
    rw (w, n, i, v) (store_negative-IsDenied first.hash err first.now (first.others c))

-- A token that the inner store refused stays refused: after a validation that the inner store
-- answered with a verdict, even where the cache held the token, every validation of the hash is
-- denied until the inner store says yes again, an outage of the inner store included.
pub refused_stays_out :
    (is_infra_error : StoreError → Bool) (first : Request) (err : StoreError) (c : CachedTokenStore)
    (ops : List Op) (r : Request)
    → first.well_formed ≡ true
    → cached_verdict first.hash first.now c ≡ none
    → first.inner ≡ denied err
    → is_verdict_class err ≡ true
    → first.hash ≡ r.hash
    → AllQuiet r.hash ops
    → IsQuiet r.hash r
    → is_denied r.inner ≡ true
    → is_denied
        (validate_token is_infra_error r
          (run is_infra_error ops (validate_token is_infra_error first c).1)).0
      ≡ true
refused_stays_out f first err c ops r w n i v e q s d =
    validate_token-is_denied f r (run f ops (validate_token f first c).1) d s.calm (
      run-IsDenied f r.hash ops (validate_token f first c).1 q (
        subst (λ k. IsDenied k (validate_token f first c).1) e
          (refused-IsDenied f first err c w n i v)))
