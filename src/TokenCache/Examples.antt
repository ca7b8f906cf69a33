-- ===== src/TokenCache/Examples.antt =====
-- Runs of the token cache, and its theorems at concrete stores.
use llm_supervisor_proxy.Support.Assoc.{lookup, insert, delete}
use llm_supervisor_proxy.Support.{
  ℕ, ◌≡◌, refl, Bool, true, false, String, List, [], ◌∷◌, none, some, inr, dec_str,
}
use llm_supervisor_proxy.Lru.{
  new_lru, move_to_front, get, peek, drop_back, evict_loop, put_at, put, remove,
}
use llm_supervisor_proxy.TokenCache.{
  AuthToken, StoreError, token_not_found, other_error, CachedTokenStore, new_cached_token_store,
  bound_index, remember_id, fresh_until, store_positive, store_negative, Answer, allowed, denied,
  entry_verdict, cached_verdict, is_verdict_class, stale_answer, revalidate, Request,
  validate_token, create_token, delete_indexed, delete_token, drop_indexed, update_token_permission,
}
use llm_supervisor_proxy.TokenCache.Denial.{is_denied, validates, creates, step, run, Op}
use llm_supervisor_proxy.TokenCache.Refusal.{deleted_stays_out, refused_stays_out}
use llm_supervisor_proxy.TokenCache.Staleness.{Justified, validate_token-Justified}

program : Unit {0}
unfolding dec_str lookup insert delete new_lru move_to_front get peek drop_back evict_loop put_at
    put remove new_cached_token_store bound_index remember_id fresh_until store_positive
    store_negative entry_verdict cached_verdict is_verdict_class stale_answer revalidate
    validate_token create_token delete_indexed delete_token drop_indexed update_token_permission
    step run
program = tt

abbrev token : AuthToken
token = record { id = "t"; expires_at = none }

abbrev outage : StoreError → Bool
outage (other_error text) = true
outage err = false

abbrev ask : String → ℕ → Answer → Request
ask hash now inner = record {
  well_formed = true;
  hash = hash;
  now = now;
  inner = inner;
  others = λ c. c;
}

abbrev no_reply : Answer
no_reply = denied (other_error "connection refused")

-- Fresh for 10, refusals for 5, stale for 100, two entries.
abbrev empty : CachedTokenStore
empty =
    new_cached_token_store
      (record { tokens_positive_ttl = 10; negative_ttl = 5; stale_cap = 100; lru_cap = 2 })

abbrev known : CachedTokenStore
known = create_token "h" token none 0 empty

-- Fresh, stale in an outage, and too old.
outage_runs :
    ((validate_token outage (ask "h" 9 no_reply) known).0 ≡ allowed (some token))
    × ((validate_token outage (ask "h" 90 no_reply) known).0 ≡ allowed (some token))
    × ((validate_token outage (ask "h" 101 no_reply) known).0 ≡ no_reply)
unfolding program
outage_runs = (refl, refl, refl)

eviction_runs :
    (validate_token outage
      (ask "h" 9 no_reply)
      (create_token "j" token none 0 (create_token "i" token none 0 known))).0
    ≡ no_reply
unfolding program
eviction_runs = refl

validate_token-Justified_example :
    Justified outage
      (ask "h" 90 no_reply)
      known
      (validate_token outage (ask "h" 90 no_reply) known).0
validate_token-Justified_example = validate_token-Justified outage (ask "h" 90 no_reply) known

abbrev busy : List Op
busy = validates (ask "h" 3 no_reply) ∷ creates "i" token none 4 ∷ []

deleted_stays_out_example :
    is_denied
      (validate_token outage (ask "h" 6 no_reply) (run outage busy (delete_token "t" known))).0
    ≡ true
unfolding program
deleted_stays_out_example =
    deleted_stays_out outage "t" known busy (ask "h" 6 no_reply) refl
      (record { refused = inr refl; calm = λ c h. h }, (refl, tt))
      (record { refused = inr refl; calm = λ c h. h }) refl

refused_stays_out_example :
    is_denied
      (validate_token outage
        (ask "h" 40 no_reply)
        (run outage busy (validate_token outage (ask "h" 20 (denied token_not_found)) known).1)).0
    ≡ true
unfolding program
refused_stays_out_example =
    refused_stays_out outage (ask "h" 20 (denied token_not_found)) token_not_found known busy
      (ask "h" 40 no_reply) refl refl refl refl refl
      (record { refused = inr refl; calm = λ c h. h }, (refl, tt))
      (record { refused = inr refl; calm = λ c h. h }) refl
