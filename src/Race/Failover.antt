-- ===== src/Race/Failover.antt =====
-- pkg/proxy/race_coordinator.go: whether a failed attempt moves to another credential of its model, and
-- which model follows in the chain otherwise.
use llm_supervisor_proxy.Failure.{Error, is_quota_error, is_rate_limit_error}
use llm_supervisor_proxy.CredentialLb.Cooldown.{
  CredFailoverClass, failover_none, failover_rate_limit, failover_quota, classify_cred_failure,
  to_engine_class, effective_cooldown,
}
use llm_supervisor_proxy.CredentialLb.Engine.{Engine, exclude_and_reselect_for_class}
use llm_supervisor_proxy.CredentialLb.Exclude.{
  Reselection, reselect_healthy, reselect_soonest_expiry, reselect_none,
}
use llm_supervisor_proxy.CredentialLb.Select.{Others}
use llm_supervisor_proxy.CredentialLb.Selector.{CredentialRef}
use llm_supervisor_proxy.Race.Coordinator.{
  Config, RaceCoordinator, SpawnTrigger, rate_limit_trigger, quota_trigger,
}
use llm_supervisor_proxy.Race.Rows.{latest}
use llm_supervisor_proxy.Race.Request.{UpstreamRequest, is_done}
use llm_supervisor_proxy.Support.Assoc.{Map, lookup}
use llm_supervisor_proxy.Support.Int.{ℤ, pos}
use llm_supervisor_proxy.Support.{
  ℕ, ◌-◌, Bool, true, false, not, ◌&&◌, ◌||◌, String, List, [], ◌∷◌, Option, none, some, ltb,
  length, str_eq, if◌then◌else◌,
}

unfoldable pub trigger_for_class : CredFailoverClass → SpawnTrigger
trigger_for_class failover_quota = quota_trigger
trigger_for_class failover_rate_limit = rate_limit_trigger
trigger_for_class failover_none = rate_limit_trigger

abbrev pub class_of : Option Error → CredFailoverClass
class_of err = classify_cred_failure is_quota_error is_rate_limit_error err

abbrev is_none_class : CredFailoverClass → Bool
is_none_class failover_none = true
is_none_class failover_rate_limit = false
is_none_class failover_quota = false

-- A Go map's read of a missing key.
abbrev pub count_of : String → Map ℕ → ℕ
count_of model_id counts = elim (lookup model_id counts) [ none ↦ 0 | some n ↦ n ]

abbrev pub flag_of : String → Map Bool → Bool
flag_of key flags = elim (lookup key flags) [ none ↦ false | some b ↦ b ]

-- `len(Credentials)-1`, or 0 without a model.
unfoldable pub model_budget : Config → String → ℕ
model_budget cfg model_id = elim (cfg.find_model model_id) [
  | none ↦ 0
  | some credentials ↦ length credentials - 1
]

abbrev has_engine : Option Engine → Bool
has_engine none = false
has_engine (some e) = true

abbrev no_winner : Option ℕ → Bool
no_winner none = true
no_winner (some w) = false

abbrev has_several : Option (List CredentialRef) → Bool
has_several none = false
has_several (some credentials) = ltb 1 (length credentials)

-- The tests on the failed attempt, in the order of the code.
unfoldable pub row_eligible : UpstreamRequest → RaceCoordinator → Bool
row_eligible r c =
    is_done r
    && (not (is_none_class (class_of r.err))
        && (no_winner c.winner
            && (has_several (c.cfg.find_model r.model_id)
                && (not (flag_of r.model_id c.soonest_expiry_attempted_by_model)
                    && ltb (count_of r.model_id c.failover_attempts_by_model)
                        (model_budget c.cfg r.model_id)))))

unfoldable pub cred_failover_eligible : RaceCoordinator → Bool
cred_failover_eligible c =
    has_engine c.engine && elim (latest c.requests) [ none ↦ false | some r ↦ row_eligible r c ]

-- The model after the first place of the failed one.
unfoldable pub successor : String → List String → Option String
successor failed [] = none
successor failed (m ∷ []) = none
successor failed (m ∷ next ∷ models) =
    if str_eq m failed then some next else successor failed (next ∷ models)

unfoldable pub fallback_advance_target : String → List String → Option String
fallback_advance_target failed models =
    if ltb (length models) 2 then none else successor failed models

pub record CredFailoverPlan : Type 0 where
  pub credential_id : String
  pub from_credential_id : String
  pub class : CredFailoverClass
  pub retry_after : ℤ
  pub cooldown : ℤ
  pub soonest_expiry : Bool

unfoldable pub retry_after_of : Option Error → ℤ
retry_after_of none = pos 0
retry_after_of (some err) = elim err.provider_error [ none ↦ pos 0 | some pe ↦ pe.retry_after ]

-- A credential that is none, the failed one or one this request has tried is not used.
unfoldable pub fresh_credential : String → String → Map Bool → Bool
fresh_credential reselected from tried =
    not (str_eq reselected "" || (str_eq reselected from || flag_of reselected tried))

abbrev new_plan : String → String → CredFailoverClass → ℤ → ℤ → Bool → CredFailoverPlan
new_plan to from class retry_after cooldown soonest = record {
  credential_id = to;
  from_credential_id = from;
  class = class;
  retry_after = retry_after;
  cooldown = cooldown;
  soonest_expiry = soonest;
}

abbrev plan_if : Bool → CredFailoverPlan → Option CredFailoverPlan
plan_if true p = some p
plan_if false p = none

-- The switch on the mode of the engine's answer.
unfoldable pub plan_of_mode :
    Reselection → String → Map Bool → CredFailoverClass → ℤ → ℤ → Option CredFailoverPlan
plan_of_mode (to, reselect_healthy) from tried class retry_after cooldown =
    plan_if (fresh_credential to from tried) (new_plan to from class retry_after cooldown false)
plan_of_mode (to, reselect_soonest_expiry) from tried class retry_after cooldown =
    plan_if (fresh_credential to from tried) (new_plan to from class retry_after cooldown true)
plan_of_mode (to, reselect_none) from tried class retry_after cooldown = none

abbrev cooldown_of : Option Engine → CredFailoverClass → ℤ → ℤ
cooldown_of none class retry_after = effective_cooldown none class retry_after
cooldown_of (some e) class retry_after = effective_cooldown (some e.cooldown) class retry_after

abbrev Planned : Type 0
Planned = Option CredFailoverPlan × Option Engine

-- The engine is asked once.
unfoldable pub reselect_plan : Others → ℕ → UpstreamRequest → RaceCoordinator → Planned
reselect_plan others now r c =
    let class = class_of r.err in
    let retry_after = retry_after_of r.err in
    let (answer, engine') =
      exclude_and_reselect_for_class c.engine others r.model_id c.conversation_key
        r.resolved_credential_id (to_engine_class class) retry_after now in
    (
      plan_of_mode answer r.resolved_credential_id c.tried_cred_ids class retry_after
          (cooldown_of c.engine class retry_after),
      engine',
    )

-- The part behind the eligibility: without a resolved credential there is no failover.
unfoldable pub ask_engine : Others → ℕ → UpstreamRequest → RaceCoordinator → Planned
ask_engine others now r c =
    if str_eq r.resolved_credential_id "" then (none, c.engine) else reselect_plan others now r c

unfoldable pub cred_failover_plan : Others → ℕ → UpstreamRequest → RaceCoordinator → Planned
cred_failover_plan others now r c =
    if cred_failover_eligible c then ask_engine others now r c else (none, c.engine)
