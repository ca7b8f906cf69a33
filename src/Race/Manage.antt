-- ===== src/Race/Manage.antt =====
-- pkg/proxy/race_coordinator.go: manage, as one function per arm of its select, and the two deadlines.
-- An arm that returns clears `managing`.
use llm_supervisor_proxy.CredentialLb.Engine.{Engine}
use llm_supervisor_proxy.CredentialLb.Select.{Others}
use llm_supervisor_proxy.Race.Coordinator.{
  RaceCoordinator, SpawnTriggerInfo, idle_timeout, main_error, spawn, cancel_all_except,
}
use llm_supervisor_proxy.Race.Rows.{
  classify_request_failure, close_channels, has_error, all_failed, latest, model_attempt_count,
  running_count,
}
use llm_supervisor_proxy.Race.Failover.{
  CredFailoverPlan, count_of, cred_failover_eligible, cred_failover_plan, fallback_advance_target,
  trigger_for_class,
}
use llm_supervisor_proxy.Race.Request.{
  UpstreamRequest, buffer_len, is_completed, is_done, is_idle, second_attempt, fallback_attempt,
  cred_failover_attempt, running,
}
use llm_supervisor_proxy.Support.Assoc.{insert}
use llm_supervisor_proxy.Support.{
  ℕ, suc, ◌-◌, Bool, true, false, not, ◌&&◌, ◌||◌, String, List, [], ◌∷◌, Option, none, some, leb,
  ltb, length, if◌then◌else◌,
}

-- Live mode asks for a first byte, buffered mode for a completed attempt.
unfoldable pub passes_gate : Bool → UpstreamRequest → Bool
passes_gate live r =
    if live then not (has_error r) && ltb 0 (buffer_len r) else is_completed r && not (has_error r)

abbrev pub is_earlier : ℕ → Option ℕ → Bool
is_earlier i none = true
is_earlier i (some w) = ltb i w

-- The loop for a winner; `i` is the index of the first attempt. A later one would have to be earlier.
unfoldable pub winner_loop : Bool → ℕ → Option ℕ → List UpstreamRequest → Option ℕ
winner_loop live i winner [] = winner
winner_loop live i winner (r ∷ requests) =
    winner_loop live (suc i) (if passes_gate live r && is_earlier i winner then some i else winner)
      requests

abbrev pub with_winner : Option ℕ → RaceCoordinator → RaceCoordinator
with_winner none c = c
with_winner (some w) c = record c { winner = some w; stream_open = true }

abbrev pub choose_for : Option ℕ → RaceCoordinator → RaceCoordinator
choose_for none c = with_winner (winner_loop c.live_first_byte_gate 0 none c.requests) c
choose_for (some w) c = c

unfoldable pub choose_winner : RaceCoordinator → RaceCoordinator
choose_winner c = choose_for c.winner c

-- What one tick decides to spawn.
pub data Decision : Type 0 where
  no_spawn spawn_idle : Decision
  spawn_fallback : SpawnTriggerInfo → Decision
  spawn_cred : CredFailoverPlan → UpstreamRequest → Decision

abbrev pub Decided : Type 0
Decided = Decision × Option Engine

abbrev pub advance_to : Option String → UpstreamRequest → RaceCoordinator → Decision
advance_to none r c = no_spawn
advance_to (some target) r c = spawn_fallback (record {
  trigger = main_error;
  failed_request = some r.id;
  credential_id = "";
  model_id = target;
  reason = some (classify_request_failure c.cfg r);
})

-- A failed attempt without another credential advances the chain, or its failure is final.
abbrev pub decide_plan : Option CredFailoverPlan → UpstreamRequest → RaceCoordinator → Decision
decide_plan (some p) r c = spawn_cred p r
decide_plan none r c = advance_to (fallback_advance_target r.model_id c.models) r c

unfoldable pub failure_decision : Others → ℕ → UpstreamRequest → RaceCoordinator → Decided
failure_decision others now r c =
    let (plan, engine') = cred_failover_plan others now r c in (decide_plan plan r c, engine')

abbrev pub failed_case : Option UpstreamRequest → Others → ℕ → RaceCoordinator → Decided
failed_case none others now c = (no_spawn, c.engine)
failed_case (some r) others now c =
    if is_done r && has_error r then failure_decision others now r c else (no_spawn, c.engine)

-- Case 1 of the code: the latest attempt has failed.
unfoldable pub case_failed : Others → ℕ → RaceCoordinator → Decided
case_failed others now c = failed_case (latest c.requests) others now c

-- Case 2: the only attempt is idle, without a first byte or since its last activity.
unfoldable pub main_idle : ℕ → RaceCoordinator → List UpstreamRequest → Bool
main_idle now c [] = false
main_idle now c (r ∷ s ∷ requests) = false
main_idle now c (r ∷ []) = c.cfg.race_parallel_on_idle && elim r.status [
  | running ↦ ltb c.cfg.idle_timeout (now - c.idle_check_start)
  | _ ↦ is_idle c.cfg.idle_timeout now r
]

unfoldable pub or_idle : ℕ → RaceCoordinator → Decision → Decision
or_idle now c no_spawn = if main_idle now c c.requests then spawn_idle else no_spawn
or_idle now c spawn_idle = spawn_idle
or_idle now c (spawn_fallback info) = spawn_fallback info
or_idle now c (spawn_cred p r) = spawn_cred p r

unfoldable pub decide : Others → ℕ → RaceCoordinator → Decided
decide others now c =
    if (ltb (model_attempt_count c.requests) (length c.models) || cred_failover_eligible c)
      && ltb (running_count c.requests) c.cfg.race_max_parallel
    then (let (d, engine') = case_failed others now c in (or_idle now c d, engine'))
    else (no_spawn, c.engine)

abbrev pub idle_info : SpawnTriggerInfo
idle_info = record {
  trigger = idle_timeout;
  failed_request = none;
  credential_id = "";
  model_id = "";
  reason = none;
}

abbrev pub spawn_fallback_row : SpawnTriggerInfo → RaceCoordinator → RaceCoordinator
spawn_fallback_row info c = if ltb 1 (length c.models) then spawn fallback_attempt info c else c

-- The books of a credential's failover.
unfoldable pub note_failover : CredFailoverPlan → String → RaceCoordinator → RaceCoordinator
note_failover p model_id c = record c {
  failover_attempts = suc c.failover_attempts;
  tried_cred_ids = insert p.credential_id true c.tried_cred_ids;
  failover_attempts_by_model =
      insert model_id (suc (count_of model_id c.failover_attempts_by_model))
        c.failover_attempts_by_model;
  soonest_expiry_attempted_by_model =
      if p.soonest_expiry
      then insert model_id true c.soonest_expiry_attempted_by_model
      else c.soonest_expiry_attempted_by_model;
}

unfoldable pub failover_info :
    CredFailoverPlan → UpstreamRequest → RaceCoordinator → SpawnTriggerInfo
failover_info p r c = record {
  trigger = trigger_for_class p.class;
  failed_request = some r.id;
  credential_id = p.credential_id;
  model_id = r.model_id;
  reason = some (classify_request_failure c.cfg r);
}

unfoldable pub perform : Decision → RaceCoordinator → RaceCoordinator
perform no_spawn c = c
perform spawn_idle c = spawn_fallback_row idle_info (spawn second_attempt idle_info c)
perform (spawn_fallback info) c = spawn_fallback_row info c
perform (spawn_cred p r) c =
    note_failover p r.model_id (spawn cred_failover_attempt (failover_info p r c) c)

abbrev pub is_cred : Decision → Bool
is_cred no_spawn = false
is_cred spawn_idle = false
is_cred (spawn_fallback info) = false
is_cred (spawn_cred p r) = true

-- `attempts` is the count from before the spawn.
unfoldable pub finish_if_failed : Bool → ℕ → RaceCoordinator → RaceCoordinator
finish_if_failed spawned_cred attempts c =
    if not spawned_cred && (leb (length c.models) attempts && all_failed c.requests)
    then record (close_channels c) { managing = false }
    else c

unfoldable pub spawn_phase : Others → ℕ → RaceCoordinator → RaceCoordinator
spawn_phase others now c =
    let (d, engine') = decide others now c in
    finish_if_failed (is_cred d) (model_attempt_count c.requests)
      (perform d (record c { engine = engine' }))

-- The rest of a tick, by the winner.
abbrev pub after_choice : Option ℕ → Others → ℕ → RaceCoordinator → RaceCoordinator
after_choice (some w) others now c = record (cancel_all_except (some w) c) { managing = false }
after_choice none others now c = spawn_phase others now c

unfoldable pub tick : Others → ℕ → RaceCoordinator → RaceCoordinator
tick others now c = let c' = choose_winner c in after_choice c'.winner others now c'
