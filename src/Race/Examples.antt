-- ===== src/Race/Examples.antt =====
-- Runs of a race, and its theorems at concrete races.
use llm_supervisor_proxy.CredentialLb.Select.{alone}
use llm_supervisor_proxy.CredentialLb.Selector.{CredentialRef}
use llm_supervisor_proxy.Failure.{
  Error, is_context_overflow_error, is_rate_limit_error, is_quota_error,
}
use llm_supervisor_proxy.Failure.Text.{
  text_contains, contains_any, lower_char, read_digits, to_lower,
}
use llm_supervisor_proxy.Race.Bounds.{launch, race_bounds}
use llm_supervisor_proxy.Race.Budget.{rotation_rows}
use llm_supervisor_proxy.Race.Cancelled.{apply_ops}
use llm_supervisor_proxy.Race.Waiting.{wait_returns, winner_stays}
use llm_supervisor_proxy.Race.Coordinator.{
  Config, RaceCoordinator, append_row, cancel_all, cancel_all_except, cancel_loop, execute_result,
  new_race_coordinator, new_row, on_request, spawn, spawn_model, start, update_at,
}
use llm_supervisor_proxy.Race.Rows.{
  all_failed, classify_request_failure, get_winner, latest, model_attempt_count, row, running_count,
  wait_for_winner,
}
use llm_supervisor_proxy.Race.Deadline.{
  DeadlinePick, EndsEmpty, NothingToPick, handle_streaming_deadline_lem,
}
use llm_supervisor_proxy.Race.Failover.{
  cred_failover_eligible, cred_failover_plan, fallback_advance_target, model_budget, row_eligible,
  successor,
}
use llm_supervisor_proxy.Race.FinalError.{
  attempt_status, collect, common_loop, get_common_failure_status, get_final_error_info, info_of,
  info_of_status, scan_digits, scan_int, sscanf_status, text_status,
}
use llm_supervisor_proxy.Race.Liveness.{Ended, Grown, no_stall}
use llm_supervisor_proxy.Race.Manage.{
  case_failed, choose_winner, decide, passes_gate, failure_decision, failover_info,
  finish_if_failed, main_idle, note_failover, or_idle, perform, spawn_phase, tick, winner_loop,
}
use llm_supervisor_proxy.Race.Events.{
  RaceEvent, ticked, stream_deadline, hard_deadline, request_op, returned, best_loop, deadline_pick,
  handle_hard_deadline, handle_streaming_deadline, no_content, race_step, run_race,
}
use llm_supervisor_proxy.Race.Request.{
  UpstreamRequest, main_attempt, started, first_byte, got_line, got_status, add_line, apply_op,
  buffer_len, cancel, cleanup, is_completed, is_done, is_idle, is_streaming, mark_completed,
  mark_failed, mark_started, mark_streaming, new_upstream_request, set_context, set_http_status,
  set_resp, set_usage, set_use_secondary_upstream, track_activity,
}
use llm_supervisor_proxy.Race.Rules.{AnyOverflow, Stored429, rate_limit_code}
use llm_supervisor_proxy.Race.Settled.{hard_deadline-unserved}
use llm_supervisor_proxy.Race.Shape.{SpawnStep, kinds, shape}
use llm_supervisor_proxy.Race.Status.{AllFailWith, get_common_failure_status_lem}
use llm_supervisor_proxy.Race.Decisions.{race_step-SpawnStep}
use llm_supervisor_proxy.Race.Winner.{AllCancelledBut, first_eligible, tick-winner}
use llm_supervisor_proxy.StreamBuffer.{
  add, append_chunk, close, get_total_len, invalidate_cache, new_stream_buffer,
}
use llm_supervisor_proxy.Support.Int.{pos}
use llm_supervisor_proxy.Support.{
  ℕ, ◌≤◌, ◌≡◌, ◌≢◌, ◌⊎◌, ◌↔◌, refl, Bool, true, false, String, List, [], ◌∷◌, Option, none, some,
  length, dec_str, arith, str_ne,
}

program : Unit {0}
unfolding is_context_overflow_error is_rate_limit_error is_quota_error text_contains contains_any
    lower_char read_digits to_lower rotation_rows apply_ops all_failed append_row cancel_all
    cancel_all_except cancel_loop classify_request_failure execute_result get_winner latest
    model_attempt_count new_race_coordinator new_row on_request row running_count spawn spawn_model
    start update_at wait_for_winner cred_failover_eligible cred_failover_plan
    fallback_advance_target model_budget row_eligible successor attempt_status collect common_loop
    get_common_failure_status get_final_error_info info_of info_of_status scan_digits scan_int
    sscanf_status text_status best_loop case_failed choose_winner deadline_pick decide passes_gate
    failure_decision failover_info finish_if_failed handle_hard_deadline handle_streaming_deadline
    main_idle no_content note_failover or_idle perform race_step run_race spawn_phase tick
    winner_loop add_line apply_op buffer_len cancel cleanup is_completed is_done is_idle
    is_streaming mark_completed mark_failed mark_started mark_streaming new_upstream_request
    set_context set_http_status set_resp set_usage set_use_secondary_upstream track_activity kinds
    first_eligible add append_chunk close get_total_len invalidate_cache new_stream_buffer dec_str
program = tt

abbrev two_credentials : String → Option (List CredentialRef)
two_credentials m = some (
    record { credential_id = "x"; weight = pos 1; position = pos 0 }
    ∷ record { credential_id = "y"; weight = pos 1; position = pos 1 }
    ∷ [])

abbrev config : Config
config = record {
  race_max_parallel = 3;
  race_parallel_on_idle = true;
  idle_timeout = 10;
  race_max_buffer_bytes = pos 0;
  find_model = two_credentials;
  hide = λ s. s;
}

abbrev plain : String → Error
plain text = record {
  text = text;
  provider_error = none;
  is_canceled = false;
  is_deadline_exceeded = false;
  net_timeout = none;
  url_timeout = none;
  is_op_error = false;
}

abbrev race : Bool → RaceCoordinator
race live = launch config none "k" "a" ("b" ∷ []) live 0

-- The main attempt is idle, a second one and a fallback join, and the fallback completes.
abbrev idle_then_won : List RaceEvent
idle_then_won =
    request_op 0 (started 0)
    ∷ ticked alone 5
    ∷ ticked alone 20
    ∷ request_op 2 (first_byte 21)
    ∷ request_op 2 (got_line (1 ∷ 2 ∷ []))
    ∷ returned 2 none 22
    ∷ ticked alone 23
    ∷ hard_deadline
    ∷ returned 0 (some (plain "late")) 24
    ∷ []

idle_then_won_runs :
    let c = run_race (race false) idle_then_won in
    (c.winner ≡ some 2)
    × (length c.requests ≡ 3)
    × (c.stream_open ≡ true)
    × (c.done ≡ false)
    × (c.managing ≡ false)
unfolding program
idle_then_won_runs = (refl, refl, refl, refl, refl)

-- Both models fail, and the race ends.
abbrev both_failed : List RaceEvent
both_failed =
    returned 0 (some (plain "upstream returned error: 503 busy")) 1
    ∷ ticked alone 2
    ∷ request_op 1 (got_status (pos 503))
    ∷ returned 1 (some (plain "busy")) 3
    ∷ []

both_failed_runs :
    let c = run_race (race false) both_failed in
    (length c.requests ≡ 2)
    × (get_common_failure_status c.requests ≡ pos 503)
    × ((get_final_error_info c.requests).error_code ≡ "unavailable")
    × ((tick alone 4 c).done ≡ true)
unfolding program
both_failed_runs = (refl, refl, refl, refl)

abbrev two_running : Bool → RaceCoordinator
two_running live = run_race (race live) (
    request_op 0 (started 0)
    ∷ ticked alone 20
    ∷ request_op 1 (got_line (1 ∷ 2 ∷ []))
    ∷ request_op 2 (got_line (1 ∷ []))
    ∷ [])

tick-winner_example :
    let c' = tick alone 21 (two_running true) in
    (c'.winner ≡ some 1)
    × ((c'.stream_open ≡ true)
        × ((c'.managing ≡ false)
            × ((row 1 c'.requests ≡ row 1 (two_running true).requests)
                × AllCancelledBut 1 c'.requests)))
unfolding program
tick-winner_example = tick-winner alone 21 (two_running true) 1 refl refl

handle_streaming_deadline_lem_example :
    let c' = handle_streaming_deadline (two_running false) in
    DeadlinePick (two_running false) c' ⊎ (NothingToPick (two_running false) × EndsEmpty c')
unfolding program
handle_streaming_deadline_lem_example = handle_streaming_deadline_lem (two_running false) refl

-- A completed attempt is passed over at the deadline, in favour of an empty one that still runs.
completed_passed_over :
    let c = run_race (race false) (
      request_op 0 (started 0)
      ∷ ticked alone 20
      ∷ request_op 0 (got_line (1 ∷ 2 ∷ []))
      ∷ returned 0 none 21
      ∷ stream_deadline
      ∷ []) in
    c.winner ≡ some 1
unfolding program
completed_passed_over = refl

abbrev failing : ℕ → UpstreamRequest
failing i = record (new_upstream_request i main_attempt "a" (pos 0)) {
  err = some (plain "slow down");
  http_status_code = pos 429;
}

get_common_failure_status_lem_example :
    (get_common_failure_status (failing 0 ∷ failing 1 ∷ []) ≡ pos 429)
    ↔ AllFailWith (pos 429) (failing 0 ∷ failing 1 ∷ [])
get_common_failure_status_lem_example =
    get_common_failure_status_lem (failing 0) (failing 1 ∷ []) (pos 429) (λ z. ground (arith, z))

rate_limit_code_example :
    AllFailWith (pos 429) (failing 0 ∷ failing 1 ∷ [])
    × (Stored429 (failing 0 ∷ failing 1 ∷ []) × ¬ AnyOverflow (failing 0 ∷ failing 1 ∷ []))
unfolding program
rate_limit_code_example = rate_limit_code (failing 0 ∷ failing 1 ∷ []) refl

abbrev overflowing : UpstreamRequest
overflowing = record (failing 1) { err = some (plain "400: prompt is too long") }

a_named : ◌≢◌ {A = String} "a" ""
unfolding program
a_named = str_ne "a" "" refl

b_named : ◌≢◌ {A = String} "b" ""
unfolding program
b_named = str_ne "b" "" refl

race_step-SpawnStep_example :
    SpawnStep (shape (race false)) (shape (race_step (race false) (ticked alone 20)))
unfolding program
race_step-SpawnStep_example =
    race_step-SpawnStep (race false) (ticked alone 20)
      ((λ z. ground (arith, z)), ((a_named, (b_named, tt)), (a_named, tt)))

race_bounds_example :
    let c = run_race (race false) idle_then_won in
    (model_attempt_count c.requests ≤ 3)
    × ((j : String) → rotation_rows j (kinds c.requests) ≤ model_budget config j)
unfolding program
race_bounds_example =
    race_bounds config none "k" "a" ("b" ∷ []) false 0 idle_then_won (a_named, (b_named, tt))
      ((refl, tt), (tt, tt))

no_stall_example :
    let c = run_race (race false) both_failed in let c' = tick alone 4 c in Ended c' ⊎ Grown c c'
unfolding program
no_stall_example =
    no_stall config none "k" "a" ("b" ∷ []) false 0 both_failed alone 4 (a_named, (b_named, tt))
      ((refl, tt), (tt, tt)) (omega arith) refl refl

winner_stays_example :
    let c =
      run_race (run_race (race false) idle_then_won) (stream_deadline ∷ ticked alone 30 ∷ []) in
    (c.winner ≡ some 2) × (c.stream_open ≡ true)
unfolding program
winner_stays_example =
    winner_stays config none "k" "a" ("b" ∷ []) false 0 idle_then_won
      (stream_deadline ∷ ticked alone 30 ∷ []) 2 refl

wait_returns_example :
    let c = run_race (race false) idle_then_won in
    (wait_for_winner true true c ≡ some (get_winner c))
    ⊎ ((true ≡ true) × (wait_for_winner true true c ≡ some none))
unfolding program
wait_returns_example =
    wait_returns config none "k" "a" ("b" ∷ []) false 0 idle_then_won true true refl

hard_deadline-unserved_example :
    race_step (run_race (race false) idle_then_won) hard_deadline
    ≡ run_race (race false) idle_then_won
unfolding program
hard_deadline-unserved_example =
    hard_deadline-unserved config none "k" "a" ("b" ∷ []) false 0 idle_then_won 2 refl
