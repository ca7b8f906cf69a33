-- ===== src/Race/Plans.antt =====
-- pkg/proxy/race_coordinator.go, credFailoverPlanLocked: what a plan promises.
use llm_supervisor_proxy.CredentialLb.Cooldown.{CredFailoverClass, failover_none}
use llm_supervisor_proxy.CredentialLb.Exclude.{
  Reselection, reselect_healthy, reselect_soonest_expiry, reselect_none,
}
use llm_supervisor_proxy.CredentialLb.Select.{Others}
use llm_supervisor_proxy.Race.Coordinator.{RaceCoordinator}
use llm_supervisor_proxy.Race.Rows.{latest}
use llm_supervisor_proxy.Race.Failover.{
  CredFailoverPlan, ask_engine, class_of, count_of, cred_failover_eligible, cred_failover_plan,
  flag_of, model_budget, plan_of_mode, row_eligible, reselect_plan, fresh_credential,
}
use llm_supervisor_proxy.Race.Request.{UpstreamRequest, is_done}
use llm_supervisor_proxy.Support.Assoc.{Map}
use llm_supervisor_proxy.Support.Int.{ℤ}
use llm_supervisor_proxy.Support.{
  ℕ, ◌<◌, ◌≡◌, ◌≢◌, Bool, true, false, String, none, some, Bool-cases, inl, inr, arith, str_eq,
  str_ne,
}

-- The credential is a new one: not none, not the one that failed, and not one tried before.
abbrev pub IsNew : String → String → Map Bool → Type 0
IsNew to from tried = (to ≢ "") × ((to ≢ from) × (flag_of to tried ≡ false))

fresh_credential-IsNew :
    (to from : String) (tried : Map Bool)
    → fresh_credential to from tried ≡ true
    → IsNew to from tried
unfolding fresh_credential
fresh_credential-IsNew to from tried h =
    (str_ne to "" (ground (arith, h)), (str_ne to from (ground (arith, h)), ground (arith, h)))

-- What the switch on the mode lets through.
plan_of_mode_sound :
    (answer : Reselection) (from : String) (tried : Map Bool) (class : CredFailoverClass)
    (retry_after cooldown : ℤ) (p : CredFailoverPlan)
    → plan_of_mode answer from tried class retry_after cooldown ≡ some p
    → (p.from_credential_id ≡ from) × ((p.class ≡ class) × IsNew p.credential_id from tried)
unfolding plan_of_mode
plan_of_mode_sound (to, reselect_healthy) from tried class retry_after cooldown p h =
    elim (Bool-cases (fresh_credential to from tried)) [
      | inl e ↦ ground (arith, e, h, fresh_credential-IsNew to from tried)
      | inr e ↦ absurd (ground (arith, e, h))
    ]
plan_of_mode_sound (to, reselect_soonest_expiry) from tried class retry_after cooldown p h =
    elim (Bool-cases (fresh_credential to from tried)) [
      | inl e ↦ ground (arith, e, h, fresh_credential-IsNew to from tried)
      | inr e ↦ absurd (ground (arith, e, h))
    ]
plan_of_mode_sound (to, reselect_none) from tried class retry_after cooldown p h =
    absurd (ground (arith, h))

abbrev pub IsSoundPlan : UpstreamRequest → RaceCoordinator → CredFailoverPlan → Type 0
IsSoundPlan r c p =
    (p.from_credential_id ≡ r.resolved_credential_id)
    × ((p.class ≡ class_of r.err) × IsNew p.credential_id r.resolved_credential_id c.tried_cred_ids)

reselect_plan_sound :
    (others : Others) (now : ℕ) (r : UpstreamRequest) (c : RaceCoordinator) (p : CredFailoverPlan)
    → (reselect_plan others now r c).0 ≡ some p
    → IsSoundPlan r c p
unfolding reselect_plan
reselect_plan_sound others now r c p h =
    plan_of_mode_sound _ r.resolved_credential_id c.tried_cred_ids (class_of r.err) _ _ p h

ask_engine_sound :
    (others : Others) (now : ℕ) (r : UpstreamRequest) (c : RaceCoordinator) (p : CredFailoverPlan)
    → (ask_engine others now r c).0 ≡ some p
    → IsSoundPlan r c p
unfolding ask_engine
ask_engine_sound others now r c p h = elim (Bool-cases (str_eq r.resolved_credential_id "")) [
  | inl e ↦ absurd (ground (arith, e, h))
  | inr e ↦ reselect_plan_sound others now r c p (ground (arith, e, h))
]

eligible_facts :
    (r : UpstreamRequest) (c : RaceCoordinator)
    → latest c.requests ≡ some r
    → cred_failover_eligible c ≡ true
    → (is_done r ≡ true)
      × ((class_of r.err ≢ failover_none)
          × ((c.winner ≡ none)
              × (count_of r.model_id c.failover_attempts_by_model < model_budget c.cfg r.model_id)))
unfolding cred_failover_eligible row_eligible
eligible_facts r c l h = ground (arith, l, h)

-- A plan to move the latest attempt to another credential is made only for a finished attempt with a
-- rate-limit or quota failure, while there is no winner and its model has budget left; it names the
-- attempt's own credential and failure class, and a credential that is not empty, not that one, and
-- not tried before in this request.
pub cred_failover_plan_sound :
    (others : Others) (now : ℕ) (r : UpstreamRequest) (c : RaceCoordinator) (p : CredFailoverPlan)
    → latest c.requests ≡ some r
    → (cred_failover_plan others now r c).0 ≡ some p
    → (is_done r ≡ true)
      × ((class_of r.err ≢ failover_none)
          × ((c.winner ≡ none)
              × ((count_of r.model_id c.failover_attempts_by_model < model_budget c.cfg r.model_id)
                  × IsSoundPlan r c p)))
unfolding cred_failover_plan
cred_failover_plan_sound others now r c p l h = elim (Bool-cases (cred_failover_eligible c)) [
  | inl e ↦
      let facts = eligible_facts r c l e in
      (
        facts.0,
        (
          facts.1.0,
          (facts.1.1.0, (facts.1.1.1, ask_engine_sound others now r c p (ground (arith, e, h)))),
        ),
      )
  | inr e ↦ absurd (ground (arith, e, h))
]
