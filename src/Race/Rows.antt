-- ===== src/Race/Rows.antt =====
-- pkg/proxy/race_coordinator.go: what manage reads of the attempts, and the wait for the winner.
use llm_supervisor_proxy.Failure.Reason.{FailureReason, classify_attempt_failure}
use llm_supervisor_proxy.Race.Request.{
  UpstreamRequest, ModelType, main_attempt, second_attempt, fallback_attempt, cred_failover_attempt,
  is_done,
}
use llm_supervisor_proxy.Support.{
  ℕ, zero, suc, Bool, true, false, ◌&&◌, ◌||◌, List, [], ◌∷◌, Option, none, some, if◌then◌else◌,
}
use llm_supervisor_proxy.Race.Coordinator.{Config, RaceCoordinator}

unfoldable pub classify_request_failure : Config → UpstreamRequest → FailureReason
classify_request_failure cfg r = classify_attempt_failure cfg.hide r.err r.http_status_code

-- The attempts that count for the window: the failovers of a credential do not.
abbrev pub counts_as_model : ModelType → Bool
counts_as_model main_attempt = true
counts_as_model second_attempt = true
counts_as_model fallback_attempt = true
counts_as_model cred_failover_attempt = false

unfoldable pub model_attempt_count : List UpstreamRequest → ℕ
model_attempt_count [] = 0
model_attempt_count (r ∷ requests) =
    if counts_as_model r.model_type
    then suc (model_attempt_count requests)
    else model_attempt_count requests

unfoldable pub running_count : List UpstreamRequest → ℕ
running_count [] = 0
running_count (r ∷ requests) =
    if is_done r then running_count requests else suc (running_count requests)

unfoldable pub latest : List UpstreamRequest → Option UpstreamRequest
latest [] = none
latest (r ∷ []) = some r
latest (r ∷ s ∷ requests) = latest (s ∷ requests)

abbrev pub has_error : UpstreamRequest → Bool
has_error r = elim r.err [ none ↦ false | some _ ↦ true ]

unfoldable pub all_failed : List UpstreamRequest → Bool
all_failed [] = true
all_failed (r ∷ requests) = is_done r && (has_error r && all_failed requests)

-- `getWinner`, as the row.
unfoldable pub row : ℕ → List UpstreamRequest → Option UpstreamRequest
row i [] = none
row zero (r ∷ requests) = some r
row (suc i) (r ∷ requests) = row i requests

unfoldable pub get_winner : RaceCoordinator → Option UpstreamRequest
get_winner c = elim c.winner [ none ↦ none | some w ↦ row w c.requests ]

-- Both channels of the end of a race, closed once each.
abbrev pub close_channels : RaceCoordinator → RaceCoordinator
close_channels c = record c { done = true; stream_open = true }

-- `WaitForWinner`, once a channel is closed or the context ended; nothing while it blocks. When both
-- are so, Go's select takes either arm: `picks_context` says which.
unfoldable pub wait_for_winner : Bool → Bool → RaceCoordinator → Option (Option UpstreamRequest)
wait_for_winner context_done picks_context c =
    if c.stream_open || c.done
    then (if context_done && picks_context then some none else some (get_winner c))
    else (if context_done then some none else none)
