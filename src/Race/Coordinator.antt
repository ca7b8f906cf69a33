-- ===== src/Race/Coordinator.antt =====
-- pkg/proxy/race_coordinator.go: the state of a race, spawn, and the cancellations. An attempt is
-- named by its index, which is its id; a channel that sync.Once closes is a flag; the log and the
-- published events are left out, save the reason that rides a spawn's trigger.
use llm_supervisor_proxy.Failure.{Error}
use llm_supervisor_proxy.Failure.Reason.{FailureReason}
use llm_supervisor_proxy.CredentialLb.Engine.{Engine}
use llm_supervisor_proxy.CredentialLb.Selector.{CredentialRef}
use llm_supervisor_proxy.Race.FinalError.{FinalErrorInfo}
use llm_supervisor_proxy.Race.Request.{
  UpstreamRequest, ModelType, main_attempt, second_attempt, fallback_attempt, cred_failover_attempt,
  RequestOp, new_upstream_request, set_use_secondary_upstream, apply_op, cancel,
}
use llm_supervisor_proxy.Support.Assoc.{Map}
use llm_supervisor_proxy.Support.Int.{ℤ}
use llm_supervisor_proxy.Support.{
  ℕ, zero, suc, Bool, true, false, String, List, [], ◌∷◌, ◌++◌, Option, none, some, leb, ltb, ◌==◌,
  length, str_eq, if◌then◌else◌,
}

pub data SpawnTrigger : Type 0 where
  initial idle_timeout main_error rate_limit_trigger quota_trigger : SpawnTrigger

-- An index of -1 and a reason that is not set are `none`.
pub record SpawnTriggerInfo : Type 0 where
  pub trigger : SpawnTrigger
  pub failed_request : Option ℕ
  pub credential_id : String
  pub model_id : String
  pub reason : Option FailureReason

-- What a race reads of the configuration. `find_model` is directGetModel, which gives the credentials
-- of a model's own row; `hide` are the regular expressions of the reasons.
pub record Config : Type 0 where
  pub race_max_parallel : ℕ
  pub race_parallel_on_idle : Bool
  pub idle_timeout : ℕ
  pub race_max_buffer_bytes : ℤ
  pub find_model : String → Option (List CredentialRef)
  pub hide : String → String

pub record RaceCoordinator : Type 0 where
  pub cfg : Config
  pub engine : Option Engine
  pub conversation_key : String
  pub requests : List UpstreamRequest
  pub models : List String
  pub winner : Option ℕ
  pub done : Bool
  pub stream_open : Bool
  pub idle_check_start : ℕ
  pub spawn_triggers : List SpawnTriggerInfo
  pub tried_cred_ids : Map Bool
  pub failover_attempts : ℕ
  pub failover_attempts_by_model : Map ℕ
  pub soonest_expiry_attempted_by_model : Map Bool
  pub stream_deadline_error : Option FinalErrorInfo
  pub live_first_byte_gate : Bool
  pub has_group_pick : Bool
  pub managing : Bool

-- An empty list of models is replaced by the configuration's own model.
unfoldable pub new_race_coordinator :
    Config → Option Engine → String → List String → String → Bool → Bool → RaceCoordinator
new_race_coordinator cfg engine key models own_model live group_pick = record {
  cfg = cfg;
  engine = engine;
  conversation_key = key;
  requests = [];
  models = elim models [ [] ↦ own_model ∷ [] | ◌∷◌ m ms ↦ m ∷ ms ];
  winner = none;
  done = false;
  stream_open = false;
  idle_check_start = 0;
  spawn_triggers = [];
  tried_cred_ids = [];
  failover_attempts = 0;
  failover_attempts_by_model = [];
  soonest_expiry_attempted_by_model = [];
  stream_deadline_error = none;
  live_first_byte_gate = live;
  has_group_pick = group_pick;
  managing = false;
}

abbrev pub model_at : ℕ → List String → Option String
model_at i [] = none
model_at zero (m ∷ ms) = some m
model_at (suc i) (m ∷ ms) = model_at i ms

abbrev or_model : String → Option String → Option String
or_model model_id default = if str_eq model_id "" then default else some model_id

-- The model of a new row, or nothing when no row of the kind can be spawned.
unfoldable pub spawn_model : ModelType → String → ℕ → List String → Option String
spawn_model main_attempt asked idx models =
    if leb (length models) idx then none else model_at 0 models
spawn_model second_attempt asked idx models =
    if leb (length models) idx then none else model_at 0 models
spawn_model fallback_attempt asked idx models =
    if ltb (length models) 2 then none else or_model asked (model_at 1 models)
spawn_model cred_failover_attempt asked idx models =
    if length models == 0 then none else or_model asked (model_at 0 models)

abbrev carries_pick : ModelType → Bool → Bool
carries_pick main_attempt pick = pick
carries_pick second_attempt pick = pick
carries_pick fallback_attempt pick = false
carries_pick cred_failover_attempt pick = false

abbrev is_second : ModelType → Bool
is_second main_attempt = false
is_second second_attempt = true
is_second fallback_attempt = false
is_second cred_failover_attempt = false

abbrev reselected_of : ModelType → String → String
reselected_of main_attempt credential_id = ""
reselected_of second_attempt credential_id = ""
reselected_of fallback_attempt credential_id = ""
reselected_of cred_failover_attempt credential_id = credential_id

unfoldable pub new_row : ModelType → SpawnTriggerInfo → String → RaceCoordinator → UpstreamRequest
new_row m_type info model_id c =
    record (set_use_secondary_upstream (is_second m_type)
      (new_upstream_request (length c.requests) m_type model_id c.cfg.race_max_buffer_bytes)) {
        carries_group_pick = carries_pick m_type c.has_group_pick;
        reselected_credential_id = reselected_of m_type info.credential_id;
      }

unfoldable pub append_row :
    ModelType → SpawnTriggerInfo → Option String → RaceCoordinator → RaceCoordinator
append_row m_type info none c = c
append_row m_type info (some model_id) c = record c {
  requests = c.requests ++ new_row m_type info model_id c ∷ [];
  spawn_triggers = c.spawn_triggers ++ info ∷ [];
}

unfoldable pub spawn : ModelType → SpawnTriggerInfo → RaceCoordinator → RaceCoordinator
spawn m_type info c =
    append_row m_type info (spawn_model m_type info.model_id (length c.requests) c.models) c

abbrev pub initial_info : SpawnTriggerInfo
initial_info = record {
  trigger = initial;
  failed_request = none;
  credential_id = "";
  model_id = "";
  reason = none;
}

-- `now` is when manage begins.
unfoldable pub start : ℕ → RaceCoordinator → RaceCoordinator
start now c = record (spawn main_attempt initial_info c) { managing = true; idle_check_start = now }

-- The loop that cancels every attempt but the winner's; `i` is the index of the first.
unfoldable pub cancel_loop : Option ℕ → ℕ → List UpstreamRequest → List UpstreamRequest
cancel_loop winner i [] = []
cancel_loop none i (r ∷ requests) = cancel r ∷ cancel_loop none (suc i) requests
cancel_loop (some w) i (r ∷ requests) =
    (if i == w then r else cancel r) ∷ cancel_loop (some w) (suc i) requests

unfoldable pub cancel_all_except : Option ℕ → RaceCoordinator → RaceCoordinator
cancel_all_except winner c = record c { requests = cancel_loop winner 0 c.requests }

unfoldable pub cancel_all : RaceCoordinator → RaceCoordinator
cancel_all c = cancel_all_except none c

-- The executor of attempt `i` does something to its row.
unfoldable pub update_at : ℕ → RequestOp → List UpstreamRequest → List UpstreamRequest
update_at i op [] = []
update_at zero op (r ∷ requests) = apply_op op r ∷ requests
update_at (suc i) op (r ∷ requests) = r ∷ update_at i op requests

unfoldable pub on_request : ℕ → RequestOp → RaceCoordinator → RaceCoordinator
on_request i op c = record c { requests = update_at i op c.requests }

-- The executor's return: an error fails the row, and no error completes it.
unfoldable pub execute_result : ℕ → Option Error → ℕ → RaceCoordinator → RaceCoordinator
execute_result i (some err) now c = on_request i (RequestOp.broke err now) c
execute_result i none now c = on_request i (RequestOp.finished now) c
