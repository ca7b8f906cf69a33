-- ===== src/Race/Events.antt =====
-- pkg/proxy/race_coordinator.go: the two deadlines, and manage's select with what the executors do beside it.
use llm_supervisor_proxy.CredentialLb.Select.{Others}
use llm_supervisor_proxy.Race.Coordinator.{
  RaceCoordinator, cancel_all, cancel_all_except, on_request, execute_result,
}
use llm_supervisor_proxy.Race.Rows.{close_channels}
use llm_supervisor_proxy.Failure.{Error}
use llm_supervisor_proxy.Race.FinalError.{FinalErrorInfo, get_final_error_info}
use llm_supervisor_proxy.Race.Request.{UpstreamRequest, RequestOp, buffer_len, is_done}
use llm_supervisor_proxy.Support.{
  ℕ, suc, Bool, true, false, not, ◌&&◌, List, [], ◌∷◌, Option, none, some, ltb, ◌==◌, if◌then◌else◌,
}
use llm_supervisor_proxy.Race.Manage.{tick}

-- The first attempt is longer than the initial -1.
abbrev pub is_longer : ℕ → Option (ℕ × ℕ) → Bool
is_longer len none = true
is_longer len (some b) = ltb b.1 len

-- The longest buffer among the attempts that are not done, with the index and length of the best.
unfoldable pub best_loop : ℕ → Option (ℕ × ℕ) → List UpstreamRequest → Option (ℕ × ℕ)
best_loop i best [] = best
best_loop i best (r ∷ requests) =
    best_loop (suc i)
      (if not (is_done r) && is_longer (buffer_len r) best then some (i, buffer_len r) else best)
      requests

abbrev pub timeout_message : FinalErrorInfo → FinalErrorInfo
timeout_message info = record info { message = "Request timeout - no response received" }

unfoldable pub no_content : RaceCoordinator → RaceCoordinator
no_content c = record (cancel_all (close_channels c)) {
  stream_deadline_error = some (timeout_message (get_final_error_info c.requests));
}

unfoldable pub deadline_pick : RaceCoordinator → Option (ℕ × ℕ) → RaceCoordinator
deadline_pick c none = no_content c
deadline_pick c (some b) =
    if c.live_first_byte_gate && (b.1 == 0)
    then no_content c
    else cancel_all_except (some b.0) (record c { winner = some b.0; stream_open = true })

abbrev pub deadline_for : Option ℕ → RaceCoordinator → RaceCoordinator
deadline_for (some w) c = c
deadline_for none c = deadline_pick c (best_loop 0 none c.requests)

unfoldable pub handle_streaming_deadline : RaceCoordinator → RaceCoordinator
handle_streaming_deadline c = deadline_for c.winner c

unfoldable pub handle_hard_deadline : RaceCoordinator → RaceCoordinator
handle_hard_deadline c = close_channels (cancel_all c)

-- The arms of manage's select, and what the executors do beside it.
pub data RaceEvent : Type 0 where
  ticked : Others → ℕ → RaceEvent
  stream_deadline hard_deadline context_done : RaceEvent
  request_op : ℕ → RequestOp → RaceEvent
  returned : ℕ → Option Error → ℕ → RaceEvent

abbrev pub stop_managing : RaceCoordinator → RaceCoordinator
stop_managing c = record c { managing = false }

abbrev pub while_managing : RaceCoordinator → RaceCoordinator → RaceCoordinator
while_managing c c' = if c.managing then c' else c

unfoldable pub race_step : RaceCoordinator → RaceEvent → RaceCoordinator
race_step c (RaceEvent.ticked others now) = while_managing c (tick others now c)
race_step c stream_deadline = while_managing c (stop_managing (handle_streaming_deadline c))
race_step c hard_deadline = while_managing c (stop_managing (handle_hard_deadline c))
race_step c context_done = while_managing c (stop_managing (close_channels (cancel_all c)))
race_step c (RaceEvent.request_op i op) = on_request i op c
race_step c (RaceEvent.returned i err now) = execute_result i err now c

unfoldable pub run_race : RaceCoordinator → List RaceEvent → RaceCoordinator
run_race c [] = c
run_race c (e ∷ events) = run_race (race_step c e) events
