-- ===== src/Race/Rules.antt =====
-- pkg/proxy/race_coordinator.go, GetFinalErrorInfo: the two rules on the code that a client retries on.
use llm_supervisor_proxy.Failure.{Error, is_context_overflow_error}
use llm_supervisor_proxy.Race.FinalError.{
  Collected, collect, collect_one, failed, info_for, get_common_failure_status,
  get_final_error_info, info_of, info_of_status, nothing_collected,
}
use llm_supervisor_proxy.Race.Request.{UpstreamRequest}
use llm_supervisor_proxy.Race.Status.{AllFailWith, get_common_failure_status_lem}
use llm_supervisor_proxy.Support.Int.{ℤ, pos, eq_ℤ, eq_ℤ→eq}
use llm_supervisor_proxy.Support.{
  ◌≡◌, ◌≢◌, ◌⊎◌, refl, Bool, true, false, ◌&&◌, String, List, [], ◌∷◌, Option, none, some,
  Bool-cases, inl, inr, arith, str_ne, dec_str,
}

abbrev pub AnyOverflow : List UpstreamRequest → Type 0
AnyOverflow [] = ⊥
AnyOverflow (r ∷ requests) = (is_context_overflow_error r.err ≡ true) ⊎ AnyOverflow requests

abbrev pub Stored429 : List UpstreamRequest → Type 0
Stored429 [] = ⊥
Stored429 (r ∷ requests) = (r.http_status_code ≡ pos 429) ⊎ Stored429 requests

collect-overflow_kept :
    (requests : List UpstreamRequest) (seen : Collected)
    → seen.has_context_overflow ≡ true
    → (collect seen requests).has_context_overflow ≡ true
unfolding collect
collect-overflow_kept [] seen h = h
collect-overflow_kept (r ∷ requests) seen h =
    collect-overflow_kept requests (collect_one seen r) (ground (arith, h))

collect-overflow :
    (requests : List UpstreamRequest) (seen : Collected)
    → AnyOverflow requests
    → (collect seen requests).has_context_overflow ≡ true
unfolding collect
collect-overflow [] seen a = absurd a
collect-overflow (r ∷ requests) seen (inl h) =
    collect-overflow_kept requests (collect_one seen r) (ground (arith, h))
collect-overflow (r ∷ requests) seen (inr a) = collect-overflow requests (collect_one seen r) a

collect-any_429 :
    (requests : List UpstreamRequest) (seen : Collected)
    → (collect seen requests).any_model_429 ≡ true
    → (seen.any_model_429 ≡ true) ⊎ Stored429 requests
unfolding collect
collect-any_429 [] seen h = inl h
collect-any_429 (r ∷ requests) seen h = elim (collect-any_429 requests (collect_one seen r) h) [
  | inr a ↦ inr (inr a)
  | inl e ↦ elim (Bool-cases seen.any_model_429) [
    | inl f ↦ inl f
    | inr f ↦ inr (inl (eq_ℤ→eq r.http_status_code (pos 429) (ground (arith, e, f))))
  ]
]

collect-failed_kept :
    (requests : List UpstreamRequest) (seen : Collected)
    → failed seen.last_error ≡ true
    → failed (collect seen requests).last_error ≡ true
unfolding collect
collect-failed_kept [] seen h = h
collect-failed_kept (r ∷ requests) seen h =
    collect-failed_kept requests (collect_one seen r) (ground (arith, h))

-- An overflow is an error, so some error is collected.
collect-failed :
    (requests : List UpstreamRequest) (seen : Collected)
    → AnyOverflow requests
    → failed (collect seen requests).last_error ≡ true
unfolding collect is_context_overflow_error
collect-failed [] seen a = absurd a
collect-failed (r ∷ requests) seen (inl h) =
    collect-failed_kept requests (collect_one seen r) (ground (arith, h))
collect-failed (r ∷ requests) seen (inr a) = collect-failed requests (collect_one seen r) a

no_code : ◌≢◌ {A = String} "" "rate_limit"
unfolding dec_str
no_code = str_ne "" "rate_limit" refl

unavailable_code : ◌≢◌ {A = String} "unavailable" "rate_limit"
unfolding dec_str
unavailable_code = str_ne "unavailable" "rate_limit" refl

not_found_code : ◌≢◌ {A = String} "model_not_found" "rate_limit"
unfolding dec_str
not_found_code = str_ne "model_not_found" "rate_limit" refl

info_of_status-rate_limit :
    (status : ℤ) (limited : Bool) (message : String)
    → (info_of_status status limited message).error_code ≡ "rate_limit"
    → (eq_ℤ status (pos 429) ≡ true) × (limited ≡ true)
unfolding info_of_status
info_of_status-rate_limit status limited message h =
    ground (arith, h, no_code, unavailable_code, not_found_code)

info_for-rate_limit :
    (o : Option Error) (status : ℤ) (seen : Collected)
    → (info_for o status seen).error_code ≡ "rate_limit"
    → (eq_ℤ status (pos 429) ≡ true)
      × ((seen.any_model_429 ≡ true) × (seen.has_context_overflow ≡ false))
info_for-rate_limit none status seen h = absurd (no_code h)
info_for-rate_limit (some err) status seen h = elim (Bool-cases seen.has_context_overflow) [
  | inl e ↦ absurd (no_code (ground (arith, e, h)))
  | inr e ↦ ground (
    arith,
    e,
    info_of_status-rate_limit status (seen.all_models_exhausted && seen.any_model_429) err.text
        (ground (arith, e, h)),
  )
]

info_for-overflow :
    (o : Option Error) (status : ℤ) (seen : Collected)
    → failed o ≡ true
    → seen.has_context_overflow ≡ true
    → let info = info_for o status seen in
      (info.http_status ≡ pos 400)
      × ((info.error_type ≡ "context_length_exceeded") × (info.error_code ≡ ""))
info_for-overflow none status seen h e = absurd (ground (arith, h))
info_for-overflow (some err) status seen h e = rw e (refl, (refl, refl))

stored_429 :
    (requests : List UpstreamRequest)
    → (collect nothing_collected requests).any_model_429 ≡ true
    → Stored429 requests
stored_429 requests h = elim (collect-any_429 requests nothing_collected h) [
  | inl e ↦ absurd (ground (arith, e))
  | inr a ↦ a
]

-- The final error tells the client that it is rate limited only if every attempt failed under the
-- status 429, one of them with that status from upstream, and none with a context overflow.
pub rate_limit_code :
    (requests : List UpstreamRequest)
    → (get_final_error_info requests).error_code ≡ "rate_limit"
    → AllFailWith (pos 429) requests × (Stored429 requests × ¬ AnyOverflow requests)
unfolding get_final_error_info info_of
rate_limit_code [] h = absurd (no_code h)
rate_limit_code (r ∷ requests) h =
    let seen = collect nothing_collected (r ∷ requests) in
    let status = get_common_failure_status (r ∷ requests) in
    let found = info_for-rate_limit seen.last_error status seen h in
    (
      (get_common_failure_status_lem r requests (pos 429) (λ z. ground (arith, z))).0
          (eq_ℤ→eq status (pos 429) found.0),
      (
        stored_429 (r ∷ requests) found.1.0,
        λ a. ground (arith, found.1.1, collect-overflow (r ∷ requests) nothing_collected a),
      ),
    )

-- When one of the attempts failed with a context overflow, the final error is a 400 of the type
-- context_length_exceeded without a code, whatever the other attempts did.
pub overflow_first :
    (requests : List UpstreamRequest)
    → AnyOverflow requests
    → let info = get_final_error_info requests in
      (info.http_status ≡ pos 400)
      × ((info.error_type ≡ "context_length_exceeded") × (info.error_code ≡ ""))
unfolding get_final_error_info info_of
overflow_first [] a = absurd a
overflow_first (r ∷ requests) a =
    let seen = collect nothing_collected (r ∷ requests) in
    info_for-overflow seen.last_error (get_common_failure_status (r ∷ requests)) seen
      (collect-failed (r ∷ requests) nothing_collected a)
      (collect-overflow (r ∷ requests) nothing_collected a)
