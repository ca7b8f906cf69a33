-- ===== src/Ultimate/Forced.antt =====
-- pkg/ultimatemodel/handler.go, `ForceTrigger`, and pkg/ultimatemodel/hash_cache.go, `StoreIfAbsent`.
use llm_supervisor_proxy.Support.{◌≡◌, refl, ap, ◌∙◌, true, false, String, List, str_eq, is_empty}
use llm_supervisor_proxy.HashCache.{HashCache, contains, record_attempt, store_if_absent}
use llm_supervisor_proxy.HashCache.Ring.{IsRing}
use llm_supervisor_proxy.HashCache.Attempts.{attempt_again, record_attempt-contains}
use llm_supervisor_proxy.Ultimate.{
  Message, Handler, hash_messages, with_cache, should_trigger, force_trigger,
  should_trigger_internal, forced_result,
}
use llm_supervisor_proxy.Ultimate.Schedule.{scheduled, should_trigger-scheduled}

store_absent :
    (c : HashCache) (k : String)
    → contains c k ≡ false
    → store_if_absent c k ≡ (record_attempt c k).1
unfolding store_if_absent record_attempt
store_absent c k e = rw e refl

store_present : (c : HashCache) (k : String) → contains c k ≡ true → store_if_absent c k ≡ c
unfolding store_if_absent
store_present c k e = rw e refl

module _ (sha256_hex : String → String) where
  force_trigger-stored :
      (h : Handler) (messages : List Message)
      → str_eq h.model_id "" ≡ false
      → is_empty messages ≡ false
      → force_trigger sha256_hex h messages ≡ (
        forced_result (hash_messages sha256_hex messages),
        with_cache h (store_if_absent h.hash_cache (hash_messages sha256_hex messages)),
      )
  unfolding should_trigger_internal
  force_trigger-stored h messages f e = rw (f, e) refl

  -- With an ultimate model configured, a forced request is always answered by it and reports no
  -- attempt. If its hash is new, the forced request takes attempt 1: forcing it again changes
  -- nothing, and the next normal request for it is attempt 2.
  pub force_takes_first :
      (h : Handler) (messages : List Message)
      → str_eq h.model_id "" ≡ false
      → is_empty messages ≡ false
      → IsRing h.hash_cache
      → contains h.hash_cache (hash_messages sha256_hex messages) ≡ false
      → let k = hash_messages sha256_hex messages in
        let once = force_trigger sha256_hex h messages in
        (once.0 ≡ forced_result k)
        × (force_trigger sha256_hex once.1 messages ≡ once)
        × ((should_trigger sha256_hex once.1 messages).0 ≡ scheduled k 2)
  force_takes_first h messages f e v a =
      let k = hash_messages sha256_hex messages in
      let seen = with_cache h (record_attempt h.hash_cache k).1 in
      rw (force_trigger-stored h messages f e, store_absent h.hash_cache k a)
        (
          refl,
          force_trigger-stored seen messages f e
              ∙ ap (λ c. (forced_result k, with_cache h c))
                  (store_present seen.hash_cache k (record_attempt-contains h.hash_cache k v a)),
          should_trigger-scheduled sha256_hex seen messages 1 f e
              (attempt_again h.hash_cache k v a),
        )
