-- ===== src/TokenCache/Staleness.antt =====
-- pkg/modelscache/tokens.go: why a token is served.
use llm_supervisor_proxy.Support.{
  ℕ, ◌+◌, ◌<◌, ◌≤◌, ◌≡◌, refl, sym, ◌⊎◌, inl, inr, Bool, true, false, Option, none, some, leb,
  arith, Bool-cases, Option-cases, subst,
}
use llm_supervisor_proxy.Lru.{peek}
use llm_supervisor_proxy.TokenCache.{
  StoreError, TokenEntry, positive, negative, CachedTokenStore, Answer, allowed, denied,
  entry_verdict, cached_verdict, is_verdict_class, stale_answer, revalidate, Request,
  validate_token,
}

-- The inner store said yes, or the cache holds the token and it is fresh, or the inner store could
-- not be reached and the cache holds the token and it is not too old.
abbrev pub Justified : (StoreError → Bool) → Request → CachedTokenStore → Answer → Type 0
Justified is_infra_error r c (denied err) = Unit
Justified is_infra_error r c (allowed token) =
    (r.inner ≡ allowed token)
    ⊎ ((fresh : ℕ) × (cached_at : ℕ) × (peek r.hash c.entries
          ≡ some (positive token fresh cached_at))
        × (r.now < fresh))
    ⊎ ((err : StoreError) × (fresh : ℕ) × (cached_at : ℕ) × (r.inner ≡ denied err)
        × (is_infra_error err ≡ true)
        × (is_verdict_class err ≡ false)
        × (peek r.hash (r.others c).entries ≡ some (positive token fresh cached_at))
        × (r.now ≤ cached_at + (r.others c).opts.stale_cap))

module _ (is_infra_error : StoreError → Bool) (r : Request) (c : CachedTokenStore) where
  hit-Justified :
      (o : Option TokenEntry) (a : Answer)
      → peek r.hash c.entries ≡ o
      → entry_verdict c r.now o ≡ some a
      → Justified is_infra_error r c a
  unfolding entry_verdict
  hit-Justified none a p e = absurd (ground (arith, e))
  hit-Justified (some (negative verdict cached_at)) a p e =
      subst (Justified is_infra_error r c) (sym is_verdict) tt
    where
      is_verdict : a ≡ denied verdict
      is_verdict = ground (arith, e)
  hit-Justified (some (positive token fresh cached_at)) a p e =
      subst (Justified is_infra_error r c) (sym is_token) (inr (inl (fresh, cached_at, p, in_time)))
    where
      is_token : a ≡ allowed token
      is_token = ground (arith, e)

      in_time : r.now < fresh
      in_time = ground (arith, e)

  stale-Justified :
      (o : Option TokenEntry) (err : StoreError)
      → r.inner ≡ denied err
      → is_infra_error err ≡ true
      → is_verdict_class err ≡ false
      → peek r.hash (r.others c).entries ≡ o
      → Justified is_infra_error r c (stale_answer (r.others c) r.now err o)
  unfolding stale_answer
  stale-Justified none err i f v p = tt
  stale-Justified (some (negative verdict cached_at)) err i f v p = tt
  stale-Justified (some (positive none fresh cached_at)) err i f v p = tt
  stale-Justified (some (positive (some token) fresh cached_at)) err i f v p =
      elim (Bool-cases (leb r.now (cached_at + (r.others c).opts.stale_cap))) [
        | inl e ↦ rw e (inr (inr (err, fresh, cached_at, i, f, v, p, ground (arith, e))))
        | inr e ↦ rw e tt
      ]

  revalidate-Justified :
      (inner : Answer)
      → r.inner ≡ inner
      → Justified is_infra_error r c (revalidate is_infra_error r.hash r.now inner (r.others c)).0
  unfolding revalidate
  revalidate-Justified (allowed token) i = inl i
  revalidate-Justified (denied err) i = elim (Bool-cases (is_verdict_class err)) [
    | inl e ↦ rw e tt
    | inr e ↦ elim (Bool-cases (is_infra_error err)) [
      | inl g ↦ rw (e, g) (stale-Justified (peek r.hash (r.others c).entries) err i g e refl)
      | inr g ↦ rw (e, g) tt
    ]
  ]

  -- A validation answers with a token only if the inner store just said yes to it, or the cache holds
  -- it and it is fresh, or the inner store failed with an infrastructure error and the cache holds it,
  -- cached no longer ago than the staleness cap.
  pub validate_token-Justified : Justified is_infra_error r c (validate_token is_infra_error r c).0
  unfolding validate_token cached_verdict
  validate_token-Justified = elim (Bool-cases r.well_formed) [
    | inr e ↦ rw e tt
    | inl e ↦ elim (Option-cases (cached_verdict r.hash r.now c)) [
      | inr (a, g) ↦ rw (e, g) (hit-Justified (peek r.hash c.entries) a refl g)
      | inl g ↦ rw (e, g) (revalidate-Justified r.inner refl)
    ]
  ]
