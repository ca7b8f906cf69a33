-- ===== src/Race/Rotation.antt =====
-- A race whose first model moves to its second credential, and the theorem on plans at it.
use llm_supervisor_proxy.Support.Int.{pos}
use llm_supervisor_proxy.Support.Assoc.{lookup, insert, delete, keep, map_values}
use llm_supervisor_proxy.Support.{
  Option, ◌<◌, ◌≢◌, ◌≡◌, ◌≢◌, refl, true, false, String, List, [], ◌∷◌, none, some, dec_str,
}
use llm_supervisor_proxy.CredentialLb.Selector.{
  CredentialRef, prefix_loop, new_weighted_selector, search_loop, pick,
}
use llm_supervisor_proxy.CredentialLb.State.{
  expired, new_model_state, credential_in_refs, is_cooling, healthy_total, healthy_walk,
  choose_healthy, pick_healthy, soonest_loop, soonest_cooldown,
}
use llm_supervisor_proxy.CredentialLb.Select
use llm_supervisor_proxy.CredentialLb.Select.{Selection, selected, alone, select}
use llm_supervisor_proxy.CredentialLb.Exclude
use llm_supervisor_proxy.CredentialLb.Exclude.{exclude, reselect_healthy, mark_cooling, add_time}
use llm_supervisor_proxy.CredentialLb.Cooldown
use llm_supervisor_proxy.CredentialLb.Cooldown.{
  CooldownConfig, quota, rate_limit, failover_none, set_quota_cooldown, quota_cooldown, clamp_quota,
  cooldown_for, fallback_cooldown, quota_cooldown_floor, quota_cooldown_ceiling,
  classify_cred_failure, effective_cooldown,
}
use llm_supervisor_proxy.CredentialLb.Engine
use llm_supervisor_proxy.CredentialLb.Engine.{Engine}
use llm_supervisor_proxy.Failure.{
  Error, is_quota, is_quota_error, is_rate_limit, is_rate_limit_error,
}
use llm_supervisor_proxy.Failure.Text.{text_contains, contains_any, lower_char, to_lower}
use llm_supervisor_proxy.Race.Bounds.{launch}
use llm_supervisor_proxy.Race.Coordinator.{
  Config, RaceCoordinator, append_row, execute_result, new_race_coordinator, new_row, on_request,
  spawn, spawn_model, start, update_at,
}
use llm_supervisor_proxy.Race.Rows.{
  all_failed, classify_request_failure, latest, model_attempt_count, row, running_count,
}
use llm_supervisor_proxy.Race.Failover.{
  CredFailoverPlan, ask_engine, class_of, count_of, cred_failover_eligible, cred_failover_plan,
  model_budget, plan_of_mode, reselect_plan, retry_after_of, row_eligible, trigger_for_class,
  fresh_credential,
}
use llm_supervisor_proxy.Race.Manage.{
  case_failed, choose_winner, decide, passes_gate, failure_decision, failover_info,
  finish_if_failed, main_idle, note_failover, or_idle, perform, spawn_phase, tick, winner_loop,
}
use llm_supervisor_proxy.Race.Events.{request_op, returned, race_step, run_race}
use llm_supervisor_proxy.Race.Plans.{IsSoundPlan, cred_failover_plan_sound}
use llm_supervisor_proxy.Race.Request.{
  UpstreamRequest, ModelType, resolved, apply_op, is_completed, is_done, mark_failed,
  new_upstream_request, set_use_secondary_upstream,
}
use llm_supervisor_proxy.StreamBuffer.{close as close_buffer, new_stream_buffer, invalidate_cache}

race_program : Unit {0}
unfolding dec_str lookup insert delete keep map_values prefix_loop new_weighted_selector search_loop
    pick expired new_model_state credential_in_refs is_cooling healthy_total healthy_walk
    choose_healthy pick_healthy soonest_loop soonest_cooldown Select.usable Select.optimistic_read
    Select.touch_binding Select.refresh Select.drop_binding Select.bind Select.pick_soonest
    Select.pick_new Select.full_path Select.bound_path Select.first_id Select.select
    Exclude.mark_cooling Exclude.rebind Exclude.reselect_soonest Exclude.reselect Exclude.moved_away
    Exclude.exclude_locked Exclude.exclude set_quota_cooldown quota_cooldown clamp_quota
    cooldown_for fallback_cooldown classify_cred_failure effective_cooldown Engine.new_engine
    Engine.keep_bindings Engine.sweep_state Engine.sweep_once Engine.apply_refs Engine.state_of
    Engine.change_state Engine.on_model_changed Engine.delete_credential
    Engine.on_credential_deleted Engine.get_or_select Cooldown.to_engine_class is_quota
    is_quota_error is_rate_limit is_rate_limit_error text_contains contains_any lower_char to_lower
    all_failed append_row classify_request_failure execute_result latest model_attempt_count
    new_race_coordinator new_row on_request row running_count spawn spawn_model start update_at
    ask_engine cred_failover_eligible cred_failover_plan model_budget plan_of_mode reselect_plan
    retry_after_of row_eligible trigger_for_class fresh_credential case_failed choose_winner decide
    passes_gate failure_decision failover_info finish_if_failed main_idle note_failover or_idle
    perform race_step run_race spawn_phase tick winner_loop apply_op is_completed is_done
    mark_failed new_upstream_request set_use_secondary_upstream close_buffer new_stream_buffer
    invalidate_cache Engine.exclude_and_reselect_for_class Engine.exclude_with_cooldown
race_program = tt

abbrev credentials : List CredentialRef
credentials =
    record { credential_id = "x"; weight = pos 1; position = pos 0 }
    ∷ record { credential_id = "y"; weight = pos 1; position = pos 1 }
    ∷ []

abbrev config : Config
config = record {
  race_max_parallel = 3;
  race_parallel_on_idle = true;
  idle_timeout = 10;
  race_max_buffer_bytes = pos 0;
  find_model = λ m. some credentials;
  hide = λ s. s;
}

abbrev engine : Option Engine.Engine
engine =
    Engine.on_model_changed (some (Engine.new_engine (pos 100) (pos 60) (λ model k. k))) "a"
      credentials

abbrev slow_down : Error
slow_down = record {
  text = "slow down";
  provider_error = some (record {
    provider = "p";
    status_code = pos 429;
    message = "slow down";
    retryable = true;
    buffer_id = "";
    retry_after = pos 7;
    error_type = "";
    error_code = "";
  });
  is_canceled = false;
  is_deadline_exceeded = false;
  net_timeout = none;
  url_timeout = none;
  is_op_error = false;
}

abbrev limited : RaceCoordinator
limited =
    run_race (launch config engine "k" "a" ("b" ∷ []) false 0)
      (request_op 0 (resolved "x") ∷ returned 0 (some slow_down) 1 ∷ [])

abbrev failed_row : UpstreamRequest
failed_row =
    mark_failed slow_down 1 (record (new_upstream_request 0 ModelType.main_attempt "a" (pos 0)) {
      resolved_credential_id = "x";
    })

abbrev reselected : Option UpstreamRequest → String
reselected none = ""
reselected (some r) = r.reselected_credential_id

-- The next tick spawns a row of the same model with the other credential.
rotation_runs :
    let c = tick alone 2 limited in
    (latest limited.requests ≡ some failed_row)
    × (model_attempt_count c.requests ≡ 1)
    × (count_of "a" c.failover_attempts_by_model ≡ 1)
    × (reselected (latest c.requests) ≡ "y")
unfolding race_program
rotation_runs = (refl, refl, refl, refl)

abbrev plan_of : Option CredFailoverPlan → CredFailoverPlan
plan_of (some p) = p
plan_of none = record {
  credential_id = "";
  from_credential_id = "";
  class = failover_none;
  retry_after = pos 0;
  cooldown = pos 0;
  soonest_expiry = false;
}

abbrev plan : CredFailoverPlan
plan = plan_of (cred_failover_plan alone 2 failed_row limited).0

cred_failover_plan_sound_example :
    (is_done failed_row ≡ true)
    × ((class_of failed_row.err ≢ failover_none)
        × ((limited.winner ≡ none)
            × ((count_of failed_row.model_id limited.failover_attempts_by_model
                  < model_budget limited.cfg failed_row.model_id)
                × IsSoundPlan failed_row limited plan)))
unfolding race_program
cred_failover_plan_sound_example =
    cred_failover_plan_sound alone 2 failed_row limited plan refl refl
