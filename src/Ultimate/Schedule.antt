-- ===== src/Ultimate/Schedule.antt =====
-- pkg/ultimatemodel/handler.go, the schedule of attempts.
use llm_supervisor_proxy.Support.{
  ℕ, suc, ◌%◌, ◌<◌, ◌≡◌, refl, sym, ap, ◌∙◌, Bool, true, false, ◌||◌, String, List, [], ◌∷◌, ltb,
  ◌==◌, str_eq, is_empty, if◌then◌else◌, arith, Bool-cases, inl, inr,
}
use llm_supervisor_proxy.HashCache.{contains, record_attempt}
use llm_supervisor_proxy.HashCache.Ring.{IsRing}
use llm_supervisor_proxy.HashCache.Attempts.{run, mentions, others, attempt_number}
use llm_supervisor_proxy.Ultimate.{
  Message, Handler, ShouldTriggerResult, hash_messages, milestone_loop, is_trigger_attempt,
  counted_result, with_cache, should_trigger, should_trigger_internal,
}

-- The ultimate model answers the fifth request, every tenth one, and all beyond the limit.
unfoldable pub on_schedule : ℕ → Bool
on_schedule n = (n == 5) || ((n % 10) == 0) || ltb 40 n

milestones : (n : ℕ) → ltb 40 (suc n) ≡ false → is_trigger_attempt (suc n) ≡ on_schedule (suc n)
unfolding is_trigger_attempt milestone_loop on_schedule
milestones n h = ground arith

beyond : (n : ℕ) → ltb 40 (suc n) ≡ true → on_schedule (suc n) ≡ true
unfolding on_schedule
beyond n h = ground arith

abbrev pub scheduled : String → ℕ → ShouldTriggerResult
scheduled hash n = record {
  triggered = on_schedule n;
  hash = hash;
  attempts_exhausted = ltb 40 n;
  current_attempt = n;
  max = 40;
}

pub counted_result-scheduled :
    (hash : String) (n : ℕ) → counted_result hash (suc n) ≡ scheduled hash (suc n)
unfolding counted_result
counted_result-scheduled hash n = elim (Bool-cases (ltb 40 (suc n))) [
  | inl e ↦ rw (e, beyond n e) refl
  | inr e ↦ elim (Bool-cases (is_trigger_attempt (suc n))) [
    | inl f ↦ rw (e, sym (milestones n e), f) refl
    | inr f ↦ rw (e, sym (milestones n e), f) refl
  ]
]

module _ (sha256_hex : String → String) where
  -- Requests through the handler, and their hashes: an empty one is not recorded.
  unfoldable pub serve : Handler → List (List Message) → Handler
  serve h [] = h
  serve h (messages ∷ history) = serve (should_trigger sha256_hex h messages).1 history

  unfoldable pub hashes : List (List Message) → List String
  hashes [] = []
  hashes (messages ∷ history) =
      let rest = hashes history in
      if is_empty messages then rest else hash_messages sha256_hex messages ∷ rest

  should_trigger-empty :
      (h : Handler) (messages : List Message)
      → is_empty messages ≡ true
      → (should_trigger sha256_hex h messages).1 ≡ h
  unfolding should_trigger_internal
  should_trigger-empty h messages e = elim (Bool-cases (str_eq h.model_id "")) [
    | inl f ↦ rw f refl
    | inr f ↦ rw (f, e) refl
  ]

  pub should_trigger-recorded :
      (h : Handler) (messages : List Message)
      → str_eq h.model_id "" ≡ false
      → is_empty messages ≡ false
      → should_trigger sha256_hex h messages ≡ (
        counted_result
            (hash_messages sha256_hex messages)
            (record_attempt h.hash_cache (hash_messages sha256_hex messages)).0,
        with_cache h (record_attempt h.hash_cache (hash_messages sha256_hex messages)).1,
      )
  unfolding should_trigger_internal
  should_trigger-recorded h messages f e = rw (f, e) refl

  serve-run :
      (h : Handler) (history : List (List Message))
      → str_eq h.model_id "" ≡ false
      → serve h history ≡ with_cache h (run h.hash_cache (hashes history))
  unfolding serve hashes run
  serve-run h [] f = refl
  serve-run h (messages ∷ history) f = elim (Bool-cases (is_empty messages)) [
    | inl e ↦ rw (should_trigger-empty h messages e, e) (serve-run h history f)
    | inr e ↦
        rw (should_trigger-recorded h messages f e, e)
          (serve-run
            (with_cache h (record_attempt h.hash_cache (hash_messages sha256_hex messages)).1)
            history f)
  ]

  -- The result of a request whose attempt has the number `suc m`.
  pub should_trigger-scheduled :
      (h : Handler) (messages : List Message) (m : ℕ)
      → str_eq h.model_id "" ≡ false
      → is_empty messages ≡ false
      → (record_attempt h.hash_cache (hash_messages sha256_hex messages)).0 ≡ suc m
      → (should_trigger sha256_hex h messages).0
        ≡ scheduled (hash_messages sha256_hex messages) (suc m)
  should_trigger-scheduled h messages m f e n =
      ap (λ r. r.0) (should_trigger-recorded h messages f e)
      ∙ ap (counted_result (hash_messages sha256_hex messages)) n
      ∙ counted_result-scheduled (hash_messages sha256_hex messages) m

  -- With an ultimate model configured, and a cache whose ring is well-formed (IsRing, which a removal
  -- from the cache can break), a request whose hash is not in the cache is attempt 1. After any
  -- further requests, fewer than the cache has places with another hash, and no removal in between,
  -- the same request is attempt `n`, one more than the requests with its hash so far. Up to attempt 40
  -- the result triggers the ultimate model exactly on attempts 5, 10, 20, 30 and 40. Above 40 it is
  -- triggered and marked exhausted, which is the mark of a request that is refused.
  pub trigger_schedule :
      (h : Handler) (messages : List Message) (history : List (List Message))
      → str_eq h.model_id "" ≡ false
      → is_empty messages ≡ false
      → IsRing h.hash_cache
      → contains h.hash_cache (hash_messages sha256_hex messages) ≡ false
      → others (hash_messages sha256_hex messages) (hashes history) < h.hash_cache.size
      → let k = hash_messages sha256_hex messages in
        let first = should_trigger sha256_hex h messages in
        (first.0 ≡ scheduled k 1)
        × ((should_trigger sha256_hex (serve first.1 history) messages).0
            ≡ scheduled k (suc (suc (mentions k (hashes history)))))
  trigger_schedule h messages history f e v a b =
      let k = hash_messages sha256_hex messages in
      let numbers = attempt_number k h.hash_cache (hashes history) v a b in
      let after = with_cache h (run (record_attempt h.hash_cache k).1 (hashes history)) in
      (
        should_trigger-scheduled h messages 0 f e numbers.0,
        (rw
            (
              should_trigger-recorded h messages f e,
              serve-run (with_cache h (record_attempt h.hash_cache k).1) history f,
            )
            (should_trigger-scheduled after messages _ f e numbers.1)),
      )
